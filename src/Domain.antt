-- ===== src/Domain.antt =====
-- src/amlguard/domain: the enumerations and the models that the components exchange. Free-text
-- fields that no modelled operation reads (timestamps of retrieval and review, generated
-- record identifiers) are left out.
mod Values
mod Enums
mod Models
pub use Values.*
pub use Enums.*
unfoldable pub use Models.*
