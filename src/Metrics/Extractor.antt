-- ===== src/Metrics/Extractor.antt =====
-- app/metrics_engine/observation_extractor.py, with the dataclass of app/metrics_engine/observation.py. JSONPath is a parameter: the values that it finds, or nothing
-- where it raises. A text that an f-string makes of numbers is a constructor of those.
mod Definitions
mod Matches
mod Loop
mod Direct
unfoldable pub use Definitions.*
unfoldable pub use Matches.*
unfoldable pub use Loop.*
unfoldable pub use Direct.*
