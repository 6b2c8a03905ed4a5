-- ===== src/Simulation.antt =====
-- Simulation: the programs of the transport network that find each other through the service.
pub mod Proxy
pub mod Station
pub mod Tap
pub mod Resolve
pub mod Gate
pub mod Pctr
pub mod Pa
use task_discovery_service.Prelude.{Bool, Text, ℕ}

-- A tap that a gate let through, as the gate and the station computer send it on.
pub record Transaction : Type 0 where
  pub transaction_id : Text
  pub card_type : Text
  pub card_id : Text
  pub token : Text
  pub gate_id : Text
  pub station_id : Text
  pub tap_time : Text
  pub allowed : Bool
  pub reason : Text

pub record TransactionAck : Type 0 where
  pub accepted : Bool
  pub batch_size : ℕ
