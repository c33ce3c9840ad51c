-- ===== src/Examples.antt =====
-- Runs of the model on small inputs.
mod Sample
mod Quant
mod Measures
mod Trading
mod Epochs
mod Genes
mod Server
mod Plans
mod Live
mod Ticks
mod Agents
mod Labs
mod Scans
