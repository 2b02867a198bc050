-- ===== src/Tests.antt =====
-- Runs of the definitions on small inputs, and the theorems at concrete inputs.
mod Histories
mod Sets
mod Clues
mod Fractions
mod Games
mod Players
mod Linked
mod Arrays
mod Requests
mod Thoughts
mod Elimination
mod Endgame
mod Crossing
mod Whole
