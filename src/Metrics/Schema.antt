-- ===== src/Metrics/Schema.antt =====
-- app/metrics_engine/schema_graph.py and schema_path_resolver.py.
mod Graph
mod Resolver
unfoldable pub use Graph.*
unfoldable pub use Resolver.*
