-- ===== src/Mcp.antt =====
-- src/ai_agent/mcp: the gateway to the tools of other systems.
pub mod RateLimiter
pub mod CircuitBreaker
pub mod Gateway
