-- ===== src/Tests/OfCallbacks.antt =====
-- Callback slots (src/pyrewire/_core/callbacks.py) at a concrete registry.
use pyre_wire.Prelude.{◌≡◌, refl, false, none, some, [], ◌∷◌, arith, ◌==◌, nat_eq}
use pyre_wire.Prelude.Int.{pos}
use pyre_wire.Python.Result.{ok, err}
use pyre_wire.Ffi.Types.{CString, RowPointer}
use pyre_wire.Callbacks.{Kind, fresh_state, Registry, CallbackHandle, Invocation, invoke_all, drain}
use pyre_wire.Callbacks.Slots.{IsValid}
use pyre_wire.Callbacks.Delivery.{received, failure, drain-invoke_all}

-- The registry as the module is imported.
abbrev pub empty_registry : Registry
empty_registry = record { next_token = 1; live = λ t. false; states = λ t. fresh_state none }

abbrev first_handle : CallbackHandle
first_handle = record { kind = Kind.delta; token = 1 }

abbrev one_slot : Registry
one_slot = record { next_token = 2; live = λ t. t == 1; states = λ t. fresh_state none }

abbrev reported : Invocation
reported =
    Invocation.on_delta (CString.text "edge") (RowPointer.cells (pos 3 ∷ pos 4 ∷ [])) (pos 1) 1

empty_registry-IsValid : IsValid empty_registry
empty_registry-IsValid = record { started = omega arith; null = refl; unused = λ t h. refl }

drain-invoke_all_example :
    let (res, r) = drain first_handle (invoke_all (reported ∷ []) one_slot) in
    (res ≡ elim (failure first_handle.token (reported ∷ []) none) [
      | none ↦ ok (received first_handle.token (reported ∷ []))
      | some e ↦ err e
    ])
    × ((drain first_handle r).0 ≡ ok [])
drain-invoke_all_example = drain-invoke_all first_handle (reported ∷ []) one_slot refl refl refl
