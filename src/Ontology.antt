-- ===== src/Ontology.antt =====
-- The ontology (backend/pkg/ontology): nodes and edges with their property bags, the closed
-- vocabulary of labels and edge types, and the events that carry them. Passed on shut but for what
-- other modules compute with.
mod Values
mod Nodes
mod Vocabulary
mod Events
unfoldable pub use Values.*
unfoldable pub use Nodes.*
unfoldable pub use Vocabulary.*
unfoldable pub use Events.*
