-- ===== src/Events.antt =====
-- The package events: DERControl events, their store, and what decides over them.
pub mod Control
pub mod Store
pub mod Supersession
pub mod Dderc
pub mod ActiveModes
pub mod ModesBitmask
pub mod Life
pub mod Randomization
pub mod Response
pub mod Tariff
pub mod Timers
pub mod Processor
pub mod CurrentControls
