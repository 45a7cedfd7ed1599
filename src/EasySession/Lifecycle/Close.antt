-- ===== src/EasySession/Lifecycle/Close.antt =====
-- The end of an `EasySession` (src/pyrewire/session.py).
use pyre_wire.Prelude.{
  ℕ, ◌≡◌, ◌≢◌, refl, sym, subst, All, true, false, Option, none, some, [], arith, nat_eq,
  if◌then◌else◌,
}
use pyre_wire.Callbacks.{CallbackHandle, Registry, close}
use pyre_wire.Session.Lifecycle.Close.{invalidate_all-All}
use pyre_wire.EasySession.{EasyLib, EasySession}
use pyre_wire.EasySession.Lifecycle.{
  easy_close, easy_release, easy_forget_cb, easy_close_world, close_handle, unset_cb, close_program,
}

-- The registry once a callback, if there is one, is closed.
abbrev pub without_cb : Option CallbackHandle → Registry → Registry
without_cb none r = r
without_cb (some h) r = close h r

forget_cb_lem :
    {W : Type 0} (c : Option CallbackHandle) (s : EasySession W)
    → s.delta_cb ≡ c
    → let s' = easy_forget_cb c s in (s'.delta_cb ≡ none) × (s'.registry ≡ without_cb c s.registry)
unfolding easy_forget_cb
forget_cb_lem none s e = (e, refl)
forget_cb_lem (some h) s e = (refl, refl)

module _ {W : Type 0} (lib : EasyLib W) where
  close-closed : (s : EasySession W) → s.closed ≡ true → easy_close lib s ≡ s
  unfolding easy_close
  close-closed s e = rw e refl

  close_handle_open : (h : ℕ) (w : W) → h ≢ 0 → close_handle lib h w ≡ lib.close h w
  unfolding close_handle
  close_handle_open h w e = ground (arith, e)

  -- What `close` of an open session leaves.
  abbrev pub IsReleased : EasySession W → EasySession W → Type 0
  IsReleased s s' =
      (s'.closed ≡ true)
      × (s'.handle ≡ 0)
      × (s'.schema_program ≡ none)
      × (s'.schema_cache ≡ [])
      × (s'.pending ≡ [])
      × (s'.delta_cb ≡ none)
      × (s'.registry ≡ without_cb s.delta_cb s.registry)
      × All (λ k. (s'.objects k).invalidated ≡ true) s.compounds
      × (s'.world
          ≡ lib.close s.handle
              (unset_cb lib s.handle s.delta_cb (close_program lib s.schema_program s.world)))

  easy_release-IsReleased : (s : EasySession W) → s.handle ≢ 0 → IsReleased s (easy_release lib s)
  unfolding easy_release easy_close_world
  easy_release-IsReleased s handle =
      let (cb, registry) = forget_cb_lem s.delta_cb s refl in
      (
        refl,
        refl,
        refl,
        refl,
        refl,
        cb,
        registry,
        invalidate_all-All s.compounds s.objects,
        close_handle_open s.handle _ handle,
      )

  -- `close` of an open session invalidates every compound that it had, and leaves no engine handle, no
  -- parsed program, no cached schema, no input and no callback, whose slot it closes. It frees the
  -- parsed program, then clears the engine's callback, then closes the engine's session. A second
  -- `close` changes nothing and calls nothing.
  pub easy_close-closes :
      (s : EasySession W)
      → s.closed ≡ false
      → s.handle ≢ 0
      → let s' = easy_close lib s in IsReleased s s' × (easy_close lib s' ≡ s')
  unfolding easy_close
  easy_close-closes s is_open handle =
      let released = easy_release-IsReleased s handle in
      subst
        (λ b.
          let s' = if b then s else easy_release lib s in
          IsReleased s s' × (easy_close lib s' ≡ s'))
        (sym is_open) (released, close-closed (easy_release lib s) released.0)
