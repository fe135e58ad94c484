-- ===== src/Tests.antt =====
-- Runs of the model on small inputs, and each theorem at an input that meets its hypotheses.
mod Discs
mod Lists
mod Submissions
mod Online
mod Texts
mod Records
mod Caches
mod Conns
mod Commands
mod Reach
mod Nets
