-- ===== src/Tests.antt =====
-- The theorems at concrete inputs, and small runs of the definitions.
mod RfsGeometry
mod RfsAlloc
mod RcSearch
mod WireMessages
mod RcSplit
mod RfsAddresses
mod CacheModel
mod ServerThreads
mod RfsFiles
mod Requests
mod RfsDirectory
mod RfsOperations
mod RfsPaths
mod ClientSession
mod RfsWrite
