-- ===== src/Dash.antt =====
-- The patterns of the DASH template library (dash/include/dash): how the elements of a global
-- array are distributed to the units of a team.
pub mod Distribution
pub mod BlockPattern1D
pub mod TilePattern1D
pub mod CsrPattern
pub mod Math
pub mod TeamSpec
pub mod BlockPattern
mod Division
pub mod CartesianSpace
pub mod CartesianIndexSpace
