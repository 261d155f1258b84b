-- ===== src/Api.antt =====
-- The data that the operator reads and writes: the Kubernetes and cert-manager objects, as far as
-- the source uses them, and the custom resource of api/v1alpha1/certificatejob_types.go.
mod Pod
mod Objects
mod Types
pub use Pod.*
pub use Objects.*
pub use Types.*
