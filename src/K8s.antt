-- ===== src/K8s.antt =====
-- The package internal/k8s: the pods, claims and secrets of the workspaces.
pub mod Pods
pub mod Build
pub mod Monad
pub mod Lifecycle
pub mod Ssh
pub mod Deleting
pub mod Ready
pub mod Timeout
pub mod Ends
pub mod Lasting
pub mod LoopFree
pub mod Finishes
pub mod Accepted
pub mod Credentials
pub mod Inversion
pub mod Ensured
pub mod Pinned
pub mod Dial
pub mod Tunnel
pub mod Exec
pub mod ForwardSsh
pub mod DirectForward
pub mod Decimal
pub mod Forward
pub mod ApiForward
pub mod Route
mod Examples
