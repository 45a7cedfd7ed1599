-- ===== src/Tests.antt =====
-- The theorems at concrete inputs, and runs of the model.
pub mod OfLanes
pub mod OfLibc
pub mod OfCallbacks
pub mod OfIntern
pub mod OfProgram
pub mod OfPrototypes
pub mod Engine
pub mod OfScripts
pub mod OfSession
pub mod OfBatches
pub mod OfStdout
pub mod OfTypedRows
pub mod OfThreads
pub mod OfEasySession
pub mod OfEasySteps
pub mod OfBatch
pub mod OfAsyncio
pub mod OfIoAdapter
pub mod OfIr
pub mod OfLoader
