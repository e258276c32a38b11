-- ===== src/Sniffer/Capture/Keep.antt =====
-- Capturing a packet keeps the memory and the accumulator in step.
use port_sentinel.Sniffer.Shm.{PortEntry}
use port_sentinel.Sniffer.Entry.{Platform}
use port_sentinel.Base.Dict.{IsDict, get, All-get, get-put, put-IsDict, All-put}
use port_sentinel.Sniffer.Capture.{
  Accum, Sniffer, Packet, Transport, other, new_traffic, is_port, count_out, count_in, count_both,
  packet_callback, tcp, udp,
}
use port_sentinel.Sniffer.Capture.Flush.{Fits}
use port_sentinel.Sniffer.Capture.Synced.{IsSynced}
use port_sentinel.Base.{
  nat_keys, ℕ, ◌≡◌, String, ◌<◌, All, Bool-cases, true, inl, or_else, List, none, ◌+◌, arith, inr,
  Option, Option-cases, max, refl,
}

-- What a capture keeps of the accumulator, whatever the memory holds.
pub record IsAccum (accum : Accum) : Type 0 where
  pub distinct : IsDict accum
  pub fits : All Fits accum

module _ (risk_of : String → ℕ) (small : (ip : String) → risk_of ip < 256) where
  or_new-Fits :
      (accum : Accum) (port protocol : ℕ)
      → IsAccum accum
      → is_port port ≡ true
      → protocol < 256
      → Fits (port, or_else (get accum port) (new_traffic protocol))
  unfolding new_traffic is_port
  or_new-Fits accum port protocol h ok lt = elim (Option-cases (get accum port)) [
    | inl e ↦
        rw e (record { port = ground arith; pid = omega arith; protocol = lt; risk = omega arith })
    | inr (t, e) ↦ rw e (All-get Fits accum port t h.fits e)
  ]

  count_out-IsAccum :
      (accum : Accum) (port protocol : ℕ) (ip : String) (size now : ℕ)
      → IsAccum accum
      → protocol < 256
      → IsAccum (count_out risk_of accum port protocol ip size now)
  unfolding count_out
  count_out-IsAccum accum port protocol ip size now h lt = elim (Bool-cases (is_port port)) [
    | inl ok ↦
        let t = or_else (get accum port) (new_traffic protocol) in
        let old = or_new-Fits accum port protocol h ok lt in
        let t' = record t {
          bytes_out = t.bytes_out + size;
          risk = max t.risk (risk_of ip);
          remote_ip = ip;
          last_seen = now;
        } in
        let new : Fits (port, t') = record {
          port = old.port;
          pid = old.pid;
          protocol = old.protocol;
          risk = omega (arith, old.risk, small ip);
        } in
        rw ok (record {
          distinct = put-IsDict accum port t' h.distinct;
          fits = All-put Fits accum port t' new h.fits;
        })
    | inr off ↦ rw off h
  ]

  count_in-IsAccum :
      (accum : Accum) (port protocol : ℕ) (ip : String) (size now : ℕ)
      → IsAccum accum
      → protocol < 256
      → IsAccum (count_in risk_of accum port protocol ip size now)
  unfolding count_in
  count_in-IsAccum accum port protocol ip size now h lt = elim (Bool-cases (is_port port)) [
    | inl ok ↦
        let t = or_else (get accum port) (new_traffic protocol) in
        let old = or_new-Fits accum port protocol h ok lt in
        let t' = record t {
          bytes_in = t.bytes_in + size;
          risk = max t.risk (risk_of ip);
          remote_ip = ip;
          last_seen = now;
        } in
        let new : Fits (port, t') = record {
          port = old.port;
          pid = old.pid;
          protocol = old.protocol;
          risk = omega (arith, old.risk, small ip);
        } in
        rw ok (record {
          distinct = put-IsDict accum port t' h.distinct;
          fits = All-put Fits accum port t' new h.fits;
        })
    | inr off ↦ rw off h
  ]

  packet_callback-IsAccum :
      (accum : Accum) (packet : Packet) (now later : ℕ)
      → IsAccum accum
      → IsAccum (packet_callback risk_of accum packet now later)
  unfolding packet_callback count_both
  packet_callback-IsAccum accum packet now later h = of_transport packet.transport refl
    where
      both :
          (sport dport protocol : ℕ)
          → protocol < 256
          → IsAccum (count_both risk_of accum packet protocol sport dport now later)
      both sport dport protocol lt =
          count_in-IsAccum (count_out risk_of accum sport protocol packet.dst packet.size now) dport
            protocol packet.src packet.size later
            (count_out-IsAccum accum sport protocol packet.dst packet.size now h lt) lt

      of_transport :
          (t : Transport)
          → packet.transport ≡ t
          → IsAccum (packet_callback risk_of accum packet now later)
      of_transport (tcp sport dport) e = elim (Bool-cases packet.has_ip) [
        | inl y ↦ rw (e, y) (both sport dport 0 (omega arith))
        | inr n ↦ rw n h
      ]
      of_transport (udp sport dport) e = elim (Bool-cases packet.has_ip) [
        | inl y ↦ rw (e, y) (both sport dport 1 (omega arith))
        | inr n ↦ rw n h
      ]
      of_transport other e = elim (Bool-cases packet.has_ip) [
        | inl y ↦ rw (e, y) h
        | inr n ↦ rw n h
      ]

  -- A port that has an entry keeps one.
  count_out-keeps :
      (accum : Accum) (port protocol : ℕ) (ip : String) (size now p : ℕ)
      → get (count_out risk_of accum port protocol ip size now) p ≡ none
      → get accum p ≡ none
  unfolding count_out
  count_out-keeps accum port protocol ip size now p h =
      let t = or_else (get accum port) (new_traffic protocol) in
      ground (
        arith,
        get-put accum port
            (record t {
              bytes_out = t.bytes_out + size;
              risk = max t.risk (risk_of ip);
              remote_ip = ip;
              last_seen = now;
            })
            p,
      )

  count_in-keeps :
      (accum : Accum) (port protocol : ℕ) (ip : String) (size now p : ℕ)
      → get (count_in risk_of accum port protocol ip size now) p ≡ none
      → get accum p ≡ none
  unfolding count_in
  count_in-keeps accum port protocol ip size now p h =
      let t = or_else (get accum port) (new_traffic protocol) in
      ground (
        arith,
        get-put accum port
            (record t {
              bytes_in = t.bytes_in + size;
              risk = max t.risk (risk_of ip);
              remote_ip = ip;
              last_seen = now;
            })
            p,
      )

  packet_callback-keeps :
      (accum : Accum) (packet : Packet) (now later p : ℕ)
      → get (packet_callback risk_of accum packet now later) p ≡ none
      → get accum p ≡ none
  unfolding packet_callback count_both
  packet_callback-keeps accum packet now later p h = of_transport packet.transport refl
    where
      both :
          (sport dport protocol : ℕ)
          → get (count_both risk_of accum packet protocol sport dport now later) p ≡ none
          → get accum p ≡ none
      both sport dport protocol e =
          count_out-keeps accum sport protocol packet.dst packet.size now p (
            count_in-keeps (count_out risk_of accum sport protocol packet.dst packet.size now) dport
              protocol packet.src packet.size later p e)

      of_transport : (t : Transport) → packet.transport ≡ t → get accum p ≡ none
      of_transport (tcp sport dport) e = elim (Bool-cases packet.has_ip) [
        | inl y ↦ both sport dport 0 (rw (e, y) at h)
        | inr n ↦ rw n at h
      ]
      of_transport (udp sport dport) e = elim (Bool-cases packet.has_ip) [
        | inl y ↦ both sport dport 1 (rw (e, y) at h)
        | inr n ↦ rw n at h
      ]
      of_transport other e = elim (Bool-cases packet.has_ip) [
        | inl y ↦ rw (e, y) at h
        | inr n ↦ rw n at h
      ]

  -- If risk scores fit in a byte, capturing a packet keeps the memory and the accumulator in step:
  -- every port that the memory shows is accumulated, and every accumulated field fits.
  pub packet_callback-IsSynced :
      (pf : Platform) (key : List ℕ) (s : Sniffer) (m : ℕ → Option PortEntry) (packet : Packet)
      (now later : ℕ)
      → IsSynced pf key s m
      → IsSynced pf key (record s { accum = packet_callback risk_of s.accum packet now later }) m
  packet_callback-IsSynced pf key s m packet now later h =
      let good =
        packet_callback-IsAccum s.accum packet now later
          (record { distinct = h.distinct; fits = h.fits }) in
      record {
        holds = h.holds;
        tracked = λ p e. h.tracked p (packet_callback-keeps s.accum packet now later p e);
        distinct = good.distinct;
        fits = good.fits;
        pids = h.pids;
      }
