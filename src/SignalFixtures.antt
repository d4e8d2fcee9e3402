-- ===== src/SignalFixtures.antt =====
-- dev/tools/generate_signal_fixtures.mts: the fixtures against which the Signal code is tested. The
-- reference implementation and libsignal are parameters.
pub mod Keys
pub mod KeysView
pub mod ProtocolAddress
pub mod Curve
pub mod Queue
pub mod SenderKeys
pub mod Direct
pub mod Checked
mod Tests
