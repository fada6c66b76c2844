-- ===== src/Manager/Address.antt =====
-- `std::net::SocketAddr`.
use networkcopy_speed.Common.{ℕ, Bool, true, false, ◌&&◌, ◌==◌, ◌≡◌, ◌↔◌, arith}

-- An address as a number, the port, and for IPv6 flow label and scope.
pub data SocketAddr : Type 0 where
  v4 : ℕ → ℕ → SocketAddr
  v6 : ℕ → ℕ → ℕ → ℕ → SocketAddr

-- `==` of SocketAddr.
unfoldable pub same_address : SocketAddr → SocketAddr → Bool
same_address (v4 a p) (v4 b q) = a == b && p == q
same_address (v6 a p f s) (v6 b q g t) = a == b && p == q && f == g && s == t
same_address _ _ = false

pub same_address-eq : (a b : SocketAddr) → (same_address a b ≡ true) ↔ (a ≡ b)
unfolding same_address
same_address-eq (v4 a p) (v4 b q) = (ground arith, ground arith)
same_address-eq (v4 a p) (v6 b q f s) = (ground arith, ground arith)
same_address-eq (v6 a p f s) (v4 b q) = (ground arith, ground arith)
same_address-eq (v6 a p f s) (v6 b q g t) = (ground arith, ground arith)
