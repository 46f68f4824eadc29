-- ===== src/Tests.antt =====
-- Concrete runs of the code, and the theorems at concrete inputs.
pub mod EncodingRuns
pub mod BcRuns
pub mod TypesRuns
pub mod P2pRuns
pub mod PexRuns
pub mod CommonRuns
mod SwitchRuns
pub mod ConnectionRuns
pub mod ProtocolRuns
pub mod NetsyncRuns
pub mod DatabaseRuns
pub mod SecretRuns
pub mod ReactorRuns
