-- ===== src/Idp.antt =====
-- Package idp: the models of the identity provider.
pub mod Constants
pub mod Enums
pub mod RoundTrips
pub mod Resources
pub mod Equivalence
pub mod Policies
pub mod Components
pub mod Accessors
pub mod Mutators
