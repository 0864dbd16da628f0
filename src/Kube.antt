-- ===== src/Kube.antt =====
-- What the operator's code sees of Kubernetes: object metadata, conditions, errors, the API client
-- and the helper functions of apimachinery. None of these is code of the repository. The data that
-- the code reads and writes are records here; the client and the helpers are parameters.
pub mod Meta
pub mod Conditions
pub mod Client
pub mod Library
pub mod Doubles
pub mod Store
