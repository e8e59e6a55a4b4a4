-- ===== src/Examples.antt =====
-- The theorems at concrete inputs that meet their hypotheses, and runs of the modelled functions.
mod Babel
mod Bfd
mod Bgp
mod Ids
mod Paths
mod Sets
mod Sorting
mod Routes
mod Tbf
