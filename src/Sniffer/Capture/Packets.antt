-- ===== src/Sniffer/Capture/Packets.antt =====
-- What a captured packet changes in the accumulator.
use port_sentinel.Base.Dict.{get, get-put, get-put_self}
use mathlib.Core.Path.{subst}
use port_sentinel.Sniffer.Capture.{
  other, Traffic, Accum, Packet, Transport, new_traffic, is_port, count_out, count_in, count_both,
  packet_callback, tcp, udp,
}
use port_sentinel.Base.{
  if◌then◌else◌, nat_keys, ℕ, ◌≡◌, String, Option, Bool, ◌+◌, ◌&&◌, some, none, false, ◌==◌,
  or_else, max, Bool-cases, inl, arith, inr, refl, ◌∙◌, same_refl, ap,
}

abbrev pub out_at : Accum → ℕ → ℕ
out_at accum p = elim (get accum p) [ none ↦ 0 | some t ↦ t.bytes_out ]

abbrev pub in_at : Accum → ℕ → ℕ
in_at accum p = elim (get accum p) [ none ↦ 0 | some t ↦ t.bytes_in ]

-- The ports of a TCP or UDP packet.
abbrev pub ports : Transport → Option (ℕ × ℕ)
ports (tcp sport dport) = some (sport, dport)
ports (udp sport dport) = some (sport, dport)
ports other = none

-- Whether the packet leaves, or arrives at, a port from 1 to 65535.
abbrev pub leaves : Packet → ℕ → Bool
leaves packet p = packet.has_ip && (elim (ports packet.transport) [
  | none ↦ false
  | some (sport, dport) ↦ sport == p && is_port p
])

abbrev pub arrives : Packet → ℕ → Bool
arrives packet p = packet.has_ip && (elim (ports packet.transport) [
  | none ↦ false
  | some (sport, dport) ↦ dport == p && is_port p
])

module _ (risk_of : String → ℕ) where
  abbrev outed : Accum → ℕ → ℕ → String → ℕ → ℕ → Traffic
  outed accum port protocol ip size now =
      let t = or_else (get accum port) (new_traffic protocol) in
      record t {
        bytes_out = t.bytes_out + size;
        risk = max t.risk (risk_of ip);
        remote_ip = ip;
        last_seen = now;
      }

  count_out_self :
      (accum : Accum) (port protocol : ℕ) (ip : String) (size now : ℕ)
      → (out_at (count_out risk_of accum port protocol ip size now) port
          ≡ out_at accum port + (if is_port port then size else 0))
        × (in_at (count_out risk_of accum port protocol ip size now) port ≡ in_at accum port)
  unfolding count_out new_traffic
  count_out_self accum port protocol ip size now =
      let after = get-put_self accum port (outed accum port protocol ip size now) in
      (ground (arith, after), ground (arith, after))

  count_out-counts :
      (accum : Accum) (port protocol : ℕ) (ip : String) (size now p : ℕ)
      → (out_at (count_out risk_of accum port protocol ip size now) p
          ≡ out_at accum p + (if port == p && is_port p then size else 0))
        × (in_at (count_out risk_of accum port protocol ip size now) p ≡ in_at accum p)
  unfolding count_out new_traffic
  count_out-counts accum port protocol ip size now p =
      let after = get-put accum port (outed accum port protocol ip size now) p in
      let (mine, same) = count_out_self accum port protocol ip size now in
      elim (Bool-cases (port == p)) [
        | inl e ↦
            let here : port ≡ p = ground arith in
            subst
              (λ q.
                (out_at (count_out risk_of accum port protocol ip size now) q
                  ≡ out_at accum q + (if port == q && is_port q then size else 0))
                × (in_at (count_out risk_of accum port protocol ip size now) q ≡ in_at accum q))
              here (mine ∙ rw (same_refl port), same)
        | inr e ↦ (ground (arith, after), ground (arith, after))
      ]

  abbrev ined : Accum → ℕ → ℕ → String → ℕ → ℕ → Traffic
  ined accum port protocol ip size now =
      let t = or_else (get accum port) (new_traffic protocol) in
      record t {
        bytes_in = t.bytes_in + size;
        risk = max t.risk (risk_of ip);
        remote_ip = ip;
        last_seen = now;
      }

  count_in_self :
      (accum : Accum) (port protocol : ℕ) (ip : String) (size now : ℕ)
      → (in_at (count_in risk_of accum port protocol ip size now) port
          ≡ in_at accum port + (if is_port port then size else 0))
        × (out_at (count_in risk_of accum port protocol ip size now) port ≡ out_at accum port)
  unfolding count_in new_traffic
  count_in_self accum port protocol ip size now =
      let after = get-put_self accum port (ined accum port protocol ip size now) in
      (ground (arith, after), ground (arith, after))

  count_in-counts :
      (accum : Accum) (port protocol : ℕ) (ip : String) (size now p : ℕ)
      → (in_at (count_in risk_of accum port protocol ip size now) p
          ≡ in_at accum p + (if port == p && is_port p then size else 0))
        × (out_at (count_in risk_of accum port protocol ip size now) p ≡ out_at accum p)
  unfolding count_in new_traffic
  count_in-counts accum port protocol ip size now p =
      let after = get-put accum port (ined accum port protocol ip size now) p in
      let (mine, same) = count_in_self accum port protocol ip size now in
      elim (Bool-cases (port == p)) [
        | inl e ↦
            let here : port ≡ p = ground arith in
            subst
              (λ q.
                (in_at (count_in risk_of accum port protocol ip size now) q
                  ≡ in_at accum q + (if port == q && is_port q then size else 0))
                × (out_at (count_in risk_of accum port protocol ip size now) q ≡ out_at accum q))
              here (mine ∙ rw (same_refl port), same)
        | inr e ↦ (ground (arith, after), ground (arith, after))
      ]

  count_both-counts :
      (accum : Accum) (packet : Packet) (protocol sport dport now later p : ℕ)
      → (out_at (count_both risk_of accum packet protocol sport dport now later) p
          ≡ out_at accum p + (if sport == p && is_port p then packet.size else 0))
        × (in_at (count_both risk_of accum packet protocol sport dport now later) p
            ≡ in_at accum p + (if dport == p && is_port p then packet.size else 0))
  unfolding count_both
  count_both-counts accum packet protocol sport dport now later p =
      let mid = count_out risk_of accum sport protocol packet.dst packet.size now in
      let (sent, kept) = count_out-counts accum sport protocol packet.dst packet.size now p in
      let (received, kept') = count_in-counts mid dport protocol packet.src packet.size later p in
      (
        kept' ∙ sent,
        received ∙ ap (λ n. n + (if dport == p && is_port p then packet.size else 0)) kept,
      )

  -- A packet adds its size to what left its source port and to what arrived at its destination
  -- port, if these are ports from 1 to 65535 and it has an IP layer and a TCP or UDP one; it
  -- changes no other count.
  pub packet_callback_counts :
      (accum : Accum) (packet : Packet) (now later p : ℕ)
      → (out_at (packet_callback risk_of accum packet now later) p
          ≡ out_at accum p + (if leaves packet p then packet.size else 0))
        × (in_at (packet_callback risk_of accum packet now later) p
            ≡ in_at accum p + (if arrives packet p then packet.size else 0))
  unfolding packet_callback
  packet_callback_counts accum packet now later p = of_transport packet.transport refl
    where
      of_transport :
          (t : Transport)
          → packet.transport ≡ t
          → (out_at (packet_callback risk_of accum packet now later) p
              ≡ out_at accum p + (if leaves packet p then packet.size else 0))
            × (in_at (packet_callback risk_of accum packet now later) p
                ≡ in_at accum p + (if arrives packet p then packet.size else 0))
      of_transport (tcp sport dport) e =
          let (o, i) = count_both-counts accum packet 0 sport dport now later p in
          rw e (ground (arith, o), ground (arith, i))
      of_transport (udp sport dport) e =
          let (o, i) = count_both-counts accum packet 1 sport dport now later p in
          rw e (ground (arith, o), ground (arith, i))
      of_transport other e = rw e (ground arith, ground arith)
