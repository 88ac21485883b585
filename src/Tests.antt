-- ===== src/Tests.antt =====
-- Sample data, runs at fixed inputs, and the theorems at inputs that meet their hypotheses.
mod Samples
mod DecimalRuns
mod DomainRuns
mod RiskRuns
mod BacktestRuns
mod ServerRuns
mod ApiRuns
mod AlpacaRuns
mod SyncRuns
mod MetricsRuns
mod BrokerRuns
