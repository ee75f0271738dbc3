-- ===== src/Examples.antt =====
-- The theorems at concrete inputs: hardware with one pipe of each kind, and coordinates that are
-- natural numbers.
mod Hardware
mod Rects
mod Resources
mod Managers
mod Buffers
mod References
mod Sizes
mod Displays
