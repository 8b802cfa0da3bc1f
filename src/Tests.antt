-- ===== src/Tests.antt =====
-- Runs at concrete inputs, and the theorems at inputs that meet their hypotheses.
mod Sample
mod ChainRuns
mod StateRuns
mod NodeRuns
mod SyncRuns
mod LedgerRuns
mod PoolRuns
mod MinerRuns
mod PeerRuns
mod WireRuns
mod AmountRuns
mod StoreRuns
mod SearchRuns
mod SendRuns
mod TextRuns
