-- ===== src/Tests.antt =====
-- Concrete worlds, runs of the code in them, and the theorems at concrete inputs.
mod MemoryKind
mod MemoryCluster
mod MemoryObjects
mod MemoryConnections
mod MemoryApps
mod Fixtures
mod Mirrors
mod Kinds
mod Names
mod Domains
mod Clusters
mod Calls
mod StartUp
mod DeepCopies
mod Statuses
mod Watched
mod WatchedApps
mod Connections
mod Twins
mod Apps
mod Interleaved
mod InterleavedApps
