-- ===== src/Channel/Protocol/Update.antt =====
-- What becomes of the buffers that the NICs hand to the protocol.
use communication_in_critica.Prelude.{
  ℕ, ◌+◌, ◌≡◌, ◌≢◌, ◌⊎◌, inl, inr, refl, ◌||◌, ◌&&◌, List, [], ◌∷◌, Option, ltb, ◌==◌, arith,
  Bool-cases, take,
}
use communication_in_critica.Ethernet.{Mac, mac_eq, broadcast, header_size}
use communication_in_critica.Gps.Device.{quadrant_none}
use communication_in_critica.Network.Nic.{Nic}
use communication_in_critica.Network.Nic.Pool.{IsPool, free-IsPool, alloc-IsPool, send-IsPool}
use communication_in_critica.Channel.Protocol.{
  Gateway, Engines, Observed, notify, forward, written, handed, update_shm, update_socket, proto,
}
use communication_in_critica.Channel.Protocol.Header.{
  packet_header_size, dst_of, src_of, payload_of, kind_of, dst_port_of,
}

-- Forwarding takes a buffer of the other NIC, if there is one, and gives it back.
forward-IsPool :
    (n : Nic) (dst : Mac) (size offset : ℕ) (bytes : List ℕ) (q : ℕ) (sent : Option ℕ)
    (held : List ℕ)
    → IsPool n held
    → IsPool (forward n dst size offset bytes q sent).0 held
unfolding forward
forward-IsPool n dst size offset bytes q sent held p = elim (alloc-IsPool n dst proto size held p) [
  | inl nothing ↦ rw (nothing, forward) p
  | inr (k, m, got, held_too) ↦
      rw (got, forward) (send-IsPool (written offset bytes (k, m)) k q sent held held_too)
]

-- The buffer is free and nobody has it, or somebody was given it and it is held.
abbrev pub Settled : ℕ → Nic → List ℕ → List ℕ → Type 0
Settled idx n who held = ((who ≡ []) × IsPool n held) ⊎ ((who ≢ []) × IsPool n (idx ∷ held))

handed-Settled :
    (port : ℕ) (observed : Observed) (idx : ℕ) (n : Nic) (held : List ℕ)
    → IsPool n (idx ∷ held)
    → Settled idx (handed port observed idx n).0 (handed port observed idx n).1 held
unfolding handed
handed-Settled port observed idx n held p = go (notify port observed) refl
  where
    go :
        (who : List ℕ)
        → notify port observed ≡ who
        → Settled idx (handed port observed idx n).0 (handed port observed idx n).1 held
    go [] e = rw (e, handed) (inl (refl, free-IsPool n idx held p))
    go (o ∷ os) e = rw (e, handed) (inr (λ q. ground (arith, q), p))

pub handed-notified :
    (port : ℕ) (observed : Observed) (idx : ℕ) (n : Nic)
    → (handed port observed idx n).1 ≡ notify port observed
unfolding handed
handed-notified port observed idx n = go (notify port observed) refl
  where
    go :
        (who : List ℕ)
        → notify port observed ≡ who
        → (handed port observed idx n).1 ≡ notify port observed
    go [] e = rw (e, handed) refl
    go (o ∷ os) e = rw (e, handed) refl

-- Whatever the frame, the engines' answers and the observers, the buffer that came from the shared
-- memory is freed once and nobody was given it, or it is held by those who were; no buffer of the
-- socket's pool is lost or freed twice.
pub update_shm-Settled :
    (g : Gateway) (e : Engines) (idx : ℕ) (held taken : List ℕ)
    → IsPool g.shm (idx ∷ held)
    → IsPool g.socket taken
    → IsPool (update_shm g e idx).gateway.socket taken
      × Settled idx (update_shm g e idx).gateway.shm (update_shm g e idx).notified held
unfolding update_shm
update_shm-Settled g e idx held taken p q =
    let b = g.shm.buffers idx in
    elim (Bool-cases (ltb b.size packet_header_size)) [
      | inl short ↦ rw short (q, inl (refl, free-IsPool g.shm idx held p))
      | inr whole ↦
          let settled = handed-Settled (dst_port_of b.frame) g.observed idx g.shm held p in
          elim (Bool-cases
            (mac_eq (src_of b.frame) g.address && mac_eq (dst_of b.frame) broadcast)) [
              | inl own ↦
                  rw (whole, own)
                    (
                      forward-IsPool g.socket (dst_of b.frame) b.size header_size
                          (take b.size (payload_of b.frame)) e.quadrant e.socket_bytes taken q,
                      settled,
                    )
              | inr other ↦ rw (whole, other) (q, settled)
            ]
    ]

-- Whatever the frame, the engines' answers and the observers, the buffer that came from the network is
-- freed once and nobody was given it, or it is held by those who were; no buffer of the shared
-- memory's pool is lost or freed twice.
pub update_socket-Settled :
    (data_offset : ℕ) (g : Gateway) (e : Engines) (idx : ℕ) (held taken : List ℕ)
    → IsPool g.socket (idx ∷ held)
    → IsPool g.shm taken
    → IsPool (update_socket data_offset g e idx).gateway.shm taken
      × Settled idx
          (update_socket data_offset g e idx).gateway.socket
          (update_socket data_offset g e idx).notified
          held
unfolding update_socket
update_socket-Settled data_offset g e idx held taken p q =
    let b = g.socket.buffers idx in
    elim (Bool-cases (ltb b.size packet_header_size)) [
      | inl short ↦ rw short (q, inl (refl, free-IsPool g.socket idx held p))
      | inr whole ↦ elim (Bool-cases (kind_of b.frame == 1 || kind_of b.frame == 2)) [
        | inl sptp ↦ rw (whole, sptp) (q, inl (refl, free-IsPool g.socket idx held p))
        | inr packet ↦
            rw (whole, packet)
              (
                forward-IsPool g.shm (dst_of b.frame) b.size 0 (take (header_size + b.size) b.frame)
                    quadrant_none e.shm_bytes taken q,
                handed-Settled (dst_port_of b.frame) g.observed idx g.socket held p,
              )
      ]
    ]
