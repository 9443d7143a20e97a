-- ===== src/Tests.antt =====
-- Concrete runs of the models, and the theorems at concrete inputs.
mod Maps
mod Files
mod Programs
mod Variables
mod Machine
mod Recorder
mod RecorderLaws
mod Loops
mod Codegen
mod Driver
