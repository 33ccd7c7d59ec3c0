-- ===== src/Raw/Packets.antt =====
-- allocatePacket of UnixRawNetworkLayerSocketServer.c.
use c_basics.Prelude.{ℕ, ◌≡◌, refl, ap, Option, none, some, List, [], ◌∷◌, ◌++◌, some-injective}

-- An entry of `iov`: its memory and its size.
pub record Iovec : Type 0 where
  pub iov_base : ℕ
  pub iov_len : ℕ

-- The two entries of a packet; its IP header is not set yet.
pub record Packet : Type 0 where
  pub header : Iovec
  pub payload : Iovec

-- free(3), which ignores NULL.
unfoldable pub free : Option ℕ → List ℕ
free none = []
free (some address) = address ∷ []

-- With the answers of malloc(3) for the packet and its two pieces: the packet or NULL, and what is
-- freed.
unfoldable pub allocate_packet : ℕ → ℕ → Option ℕ → Option ℕ → Option ℕ → Option Packet × List ℕ
unfolding free
allocate_packet header_size packet_size none header payload = (none, [])
allocate_packet header_size packet_size (some p) (some h) (some d) = (
  some (record {
    header = record { iov_base = h; iov_len = header_size };
    payload = record { iov_base = d; iov_len = packet_size };
  }),
  [],
)
allocate_packet header_size packet_size (some p) header payload =
    (none, free header ++ (free payload ++ free (some p)))

-- What malloc(3) has given: without the packet it is not asked for the pieces.
unfoldable pub obtained : Option ℕ → Option ℕ → Option ℕ → List ℕ
unfolding free
obtained none header payload = []
obtained (some p) header payload = free header ++ (free payload ++ free (some p))

-- If allocatePacket answers NULL then it has freed all that malloc(3) gave it, and if it answers a
-- packet then it has freed nothing and both pieces are what malloc(3) gave.
pub allocate_packet-keeps :
    (header_size packet_size : ℕ) (packet header payload : Option ℕ)
    → ((allocate_packet header_size packet_size packet header payload).0 ≡ none
        → (allocate_packet header_size packet_size packet header payload).1
          ≡ obtained packet header payload)
      × ((p : Packet)
          → (allocate_packet header_size packet_size packet header payload).0 ≡ some p
          → ((allocate_packet header_size packet_size packet header payload).1 ≡ [])
            × (header ≡ some p.header.iov_base)
            × (payload ≡ some p.payload.iov_base))
unfolding allocate_packet obtained free
allocate_packet-keeps hs ps none header payload = ((λ e. refl), λ p e. cc)
allocate_packet-keeps hs ps (some a) none none = ((λ e. refl), λ p e. cc)
allocate_packet-keeps hs ps (some a) none (some d) = ((λ e. refl), λ p e. cc)
allocate_packet-keeps hs ps (some a) (some h) none = ((λ e. refl), λ p e. cc)
allocate_packet-keeps hs ps (some a) (some h) (some d) = (
  (λ e. cc),
  λ p e. (
    refl,
    ap (λ q. some q.header.iov_base) (some-injective _ _ e),
    ap (λ q. some q.payload.iov_base) (some-injective _ _ e),
  ),
)
