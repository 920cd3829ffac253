-- ===== src/Receiver/Srt/Outcomes.antt =====
-- What becomes of a group in forward_to_srt_server and handle_srt_data of src/protocol/srt_handler.cpp.
use srtla.Base.{
  ℕ, ◌≤◌, ◌≡◌, refl, sym, ◌∙◌, ap, subst, true, false, not, ◌&&◌, ◌||◌, Option, none, some, List,
  ◌∷◌, arith, Bool-cases, Option-cases, inl, inr, length, ℤ, pos, ltb_ℤ, eqb_ℤ,
}
use srtla.Addr.{slice}
use srtla.AuthLimiter.{record_failure}
use srtla.Group.{Group}
use srtla.Os.{Os, close, socket, send}
use srtla.Registry.{remove_group}
use srtla.Metrics
use srtla.Registry.Members.{remove_group-store}
use srtla.Wire.{is_srt_ack, is_srt_nak, srt_min_len}
use srtla.Receiver.{Receiver, count, call, put_group}
use srtla.Receiver.Quiet.{drop_group-groups, call-Quiet, write_socket_info_file-Quiet}
use srtla.Receiver.Srt.{
  Config, with_socket, is_transient_forward_error, setup_calls, run_calls, is_ip, set_up,
  ensure_group_socket, forward_on, forward_to_srt_server, or_zero, note_auth, send_back, mark,
  failed_auth, relay, handle_srt_data,
}
use srtla.Receiver.Srt.Valid.{run_calls-Quiet, send_back-Quiet, mark-Kin}

module _ (os : Os) (cfg : Config) where
  -- The table after a failure: as it was, but without the group.
  abbrev Dropped : Group → Receiver → Receiver → Type 0
  Dropped g r s = s.groups ≡ remove_group r.groups g.handle

  forward_on-false :
      (g : Group) (packet : List ℕ) (r : Receiver)
      → (forward_on os cfg g packet r).0 ≡ false
      → Dropped g r (forward_on os cfg g packet r).1
  unfolding forward_on count call
  forward_on-false g packet r h =
      let ret = os.ret r.calls (send g.srt_sock packet) in
      let failed = count Metrics.forward_errors 1 (call (send g.srt_sock packet) r) in
      elim (Bool-cases (eqb_ℤ ret (pos (length packet)))) [
        | inl sent ↦ absurd (taken (rw sent at h))
        | inr unsent ↦
            elim (Bool-cases (
              ltb_ℤ ret (pos 0)
              && is_transient_forward_error (os.errno (send g.srt_sock packet ∷ r.calls)))) [
                | inl full ↦ absurd (taken (rw (unsent, full) at h))
                | inr broken ↦
                    rw (unsent, broken)
                      (drop_group-groups Metrics.groups_removed_srt_error g failed).0
              ]
      ]
    where
      taken : true ≡ false → ⊥
      taken e = cc e

  -- The group that ensure_group_socket leaves has its socket and its identity; without one, it is gone.
  abbrev Ready : Group → Receiver → Option Group × Receiver → Type 0
  Ready g r (none, s) = Dropped g r s
  Ready g r (some h, s) =
      (h.handle ≡ g.handle) × (remove_group s.groups g.handle ≡ remove_group r.groups g.handle)

  set_up-Ready : (sock : ℤ) (g : Group) (r : Receiver) → Ready g r (set_up os cfg sock g r)
  unfolding set_up put_group
  set_up-Ready sock g r =
      let s = run_calls os cfg (setup_calls os cfg sock g.handle) r in
      let q = run_calls-Quiet os cfg (setup_calls os cfg sock g.handle) r in
      let h = with_socket os cfg g sock in
      let w = write_socket_info_file-Quiet h (put_group h s.1) in
      elim (Bool-cases (not s.0 || not (is_ip os cfg))) [
        | inl e ↦
            let c = call-Quiet (close sock) s.1 in
            rw e (
              (drop_group-groups Metrics.groups_removed_srt_error g (call (close sock) s.1)).0
              ∙ ap (λ gs. remove_group gs g.handle) (c.groups ∙ q.groups))
        | inr e ↦ rw e (
          refl,
          ap (λ gs. remove_group gs g.handle) w.groups
              ∙ remove_group-store s.1.groups h
              ∙ ap (λ gs. remove_group gs g.handle) q.groups,
        )
      ]

  ensure_group_socket-Ready :
      (g : Group) (r : Receiver) → Ready g r (ensure_group_socket os cfg g r)
  unfolding ensure_group_socket call
  ensure_group_socket-Ready g r = elim (Bool-cases (ltb_ℤ g.srt_sock (pos 0))) [
    | inr there ↦ rw there (refl, refl)
    | inl missing ↦
        let sock = os.ret r.calls (socket cfg.srt_addr.family) in
        let r' = call (socket cfg.srt_addr.family) r in
        elim (Bool-cases (ltb_ℤ sock (pos 0))) [
          | inl failed ↦
              rw (missing, failed) (drop_group-groups Metrics.groups_removed_srt_error g r').0
          | inr made ↦ rw (missing, made) (set_up-Ready sock g r')
        ]
  ]

  -- forward_to_srt_server returns false only when the group was removed: the table is then as it was
  -- without the group, on every path, whether the socket or the send failed.
  pub forward_to_srt_server-false :
      (g : Group) (packet : List ℕ) (r : Receiver)
      → (forward_to_srt_server os cfg g packet r).0 ≡ false
      → (forward_to_srt_server os cfg g packet r).1.groups ≡ remove_group r.groups g.handle
  unfolding forward_to_srt_server
  forward_to_srt_server-false g packet r e =
      let out = ensure_group_socket os cfg g r in
      let ready = ensure_group_socket-Ready g r in
      elim (Option-cases out.0) [
        | inl gone ↦
            rw (gone, forward_to_srt_server) (subst (λ oh. Ready g r (oh, out.1)) gone ready)
        | inr (h, there) ↦
            let k = subst (λ oh. Ready g r (oh, out.1)) there ready in
            rw (there, forward_to_srt_server)
              (forward_on-false h packet out.1 (rw (there, forward_to_srt_server) at e)
                ∙ ap (λ n. remove_group out.1.groups n) k.0
                ∙ k.1)
      ]

  -- A rejected handshake, or the server's shutdown before the first ACK, is counted as a failure of the
  -- group's last address, and the group leaves the table, once the packet is passed on.
  pub handle_srt_data-rejected :
      (g : Group) (n : ℕ) (buf : List ℕ) (r : Receiver)
      → srt_min_len ≤ n
      → failed_auth os cfg g buf n ≡ true
      → (is_srt_ack buf n || is_srt_nak buf n) ≡ false
      → ((handle_srt_data os cfg g (pos n) buf r).groups ≡ remove_group r.groups g.handle)
        × ((handle_srt_data os cfg g (pos n) buf r).entries
            ≡ (record_failure r.entries r.values g.last_addr
                (or_zero os cfg (os.get_seconds r.calls))).0)
  unfolding handle_srt_data relay note_auth put_group count record_failure
  handle_srt_data-rejected g n buf r long failed other =
      let h = mark os cfg g buf n in
      let counted = count Metrics.srt_bytes_received n (count Metrics.srt_packets_received 1 r) in
      let noted = note_auth os cfg true g (put_group h counted) in
      let q = send_back-Quiet os cfg g (slice buf 0 n) noted in
      let d =
        drop_group-groups Metrics.groups_removed_auth h
          (send_back os cfg g (slice buf 0 n) noted) in
      let same : h.handle ≡ g.handle = (mark-Kin os cfg g buf n).handle in
      let enough : ltb_ℤ (pos n) (pos srt_min_len) ≡ false = ground arith in
      rw (enough, other, failed)
        (
          d.0
              ∙ ap (λ gs. remove_group gs h.handle) q.groups
              ∙ remove_group-store r.groups h
              ∙ ap (λ k. remove_group r.groups k) same,
          d.2 ∙ q.entries,
        )

  forward_on-true :
      (g : Group) (packet : List ℕ) (r : Receiver)
      → (forward_on os cfg g packet r).0 ≡ true
      → (forward_on os cfg g packet r).1.groups ≡ r.groups
  unfolding forward_on count call
  forward_on-true g packet r h =
      let ret = os.ret r.calls (send g.srt_sock packet) in
      elim (Bool-cases (eqb_ℤ ret (pos (length packet)))) [
        | inl sent ↦ rw sent refl
        | inr unsent ↦
            elim (Bool-cases (
              ltb_ℤ ret (pos 0)
              && is_transient_forward_error (os.errno (send g.srt_sock packet ∷ r.calls)))) [
                | inl full ↦ rw (unsent, full) refl
                | inr broken ↦ absurd (ended (rw (unsent, broken) at h))
              ]
      ]
    where
      ended : false ≡ true → ⊥
      ended e = cc e

  forward_to_srt_server-open :
      (g : Group) (packet : List ℕ) (r : Receiver)
      → ltb_ℤ g.srt_sock (pos 0) ≡ false
      → forward_to_srt_server os cfg g packet r ≡ forward_on os cfg g packet r
  unfolding forward_to_srt_server ensure_group_socket
  forward_to_srt_server-open g packet r open_sock =
      let quiet : (ensure_group_socket os cfg g r).1 ≡ r = rw open_sock refl in
      rw (open_sock, forward_to_srt_server) (ap (λ s. forward_on os cfg g packet s) quiet)

  -- Where the group has its socket and the result is true (the packet is sent, or dropped for a full
  -- send buffer), the table is as it was.
  forward_to_srt_server-true :
      (g : Group) (packet : List ℕ) (r : Receiver)
      → ltb_ℤ g.srt_sock (pos 0) ≡ false
      → (forward_to_srt_server os cfg g packet r).0 ≡ true
      → (forward_to_srt_server os cfg g packet r).1.groups ≡ r.groups
  forward_to_srt_server-true g packet r open_sock h =
      let e = forward_to_srt_server-open g packet r open_sock in
      ap (λ out. out.1.groups) e ∙ forward_on-true g packet r (sym (ap (λ out. out.0) e) ∙ h)
