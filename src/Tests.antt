-- ===== src/Tests.antt =====
-- Concrete wires, buffers, channels and kernels, and the theorems at work on them.
mod Base
mod BufferTests
mod CodecTests
mod ChannelTests
mod PollerTests
mod ConnectionTests
mod ClientTests
mod LifeTests
mod ThreadTests
mod ServerTests
mod RoundTests
mod OwnerTests
mod RpcServerTests
