-- ===== src/Exporter/Serve/Sent.antt =====
-- How the loop over send of handle_event ends.
use srtla.Base.{
  ℕ, zero, suc, ◌+◌, ◌-◌, ◌≤◌, ◌<◌, ◌≡◌, refl, ◌∙◌, ap, inl, inr, true, false, Option, some, List,
  ◌∷◌, ◌==◌, ltb, ℤ, pos, pos_part, eqb_ℤ_refl, ltb_ℤ, length, take, drop, ltb→lt, arith,
  Bool-cases,
}
use srtla.Exporter.Serve.{Call, send, Kernel, eintr, send_all}
use mathlib.Core.List.{append-nil}
use srtla.Text.{Text}
use srtla.Exporter.Serve.Deliveries.{
  take_all, take-more, length-drop, deliveries, is_failed, interruptions, Got, whole, front,
  open_sockets, Sane,
}

module _ (kernel : Kernel) where
  open kernel use {ret, errno}

  -- How the loop over send ends, where the newest client is the one that it serves.
  pub record Sent (client : ℤ) (text : Text) (old : List (ℤ × Text)) (before after : List Call)
      : Type 0 where
    pub got : Text
    pub is_got : Got kernel client text got
    pub delivered : deliveries kernel after ≡ (client, got) ∷ old
    pub same_open : open_sockets kernel after ≡ open_sockets kernel before

  abbrev Ends : ℤ → Text → List (ℤ × Text) → List Call → Option (List Call) → Type 0
  Ends client text old before result =
      (after : List Call) × (result ≡ some after) × Sent client text old before after

  later :
      {client : ℤ} {text : Text} {old : List (ℤ × Text)} {r r' : Option (List Call)}
      (before between : List Call)
      → r ≡ r'
      → open_sockets kernel between ≡ open_sockets kernel before
      → Ends client text old between r'
      → Ends client text old before r
  later before between e same (after, e', s) = (
    after,
    e ∙ e',
    record {
      got = s.got;
      is_got = s.is_got;
      delivered = s.delivered;
      same_open = s.same_open ∙ same;
    },
  )

  module _ (client : ℤ) (text : Text) (sent : ℕ) (calls : List Call) where
    abbrev next_send : Call
    next_send = send client (drop sent text)

    abbrev outcome : ℤ
    outcome = ret calls next_send

    onward_step :
        (f : ℕ)
        → ltb sent (length text) ≡ true
        → ltb_ℤ (pos 0) outcome ≡ true
        → send_all kernel (suc f) client text sent calls
          ≡ send_all kernel f client text (sent + pos_part outcome) (next_send ∷ calls)
    unfolding send_all
    onward_step f left went = rw (left, went) refl

    again_step :
        (f : ℕ)
        → ltb sent (length text) ≡ true
        → ltb_ℤ (pos 0) outcome ≡ false
        → (errno (next_send ∷ calls) == eintr) ≡ true
        → send_all kernel (suc f) client text sent calls
          ≡ send_all kernel f client text sent (next_send ∷ calls)
    unfolding send_all
    again_step f left stuck interrupt = rw (left, stuck, interrupt) refl

    nothing_sent : ltb_ℤ (pos 0) outcome ≡ false → pos_part outcome ≡ 0
    nothing_sent h = ground arith

    -- Where nothing went, the newest client has got as much as before.
    deliveries_still :
        (old : List (ℤ × Text))
        → ltb_ℤ (pos 0) outcome ≡ false
        → deliveries kernel calls ≡ (client, take sent text) ∷ old
        → deliveries kernel (next_send ∷ calls) ≡ (client, take sent text) ∷ old
    deliveries_still old h d =
        rw (nothing_sent h, d, eqb_ℤ_refl client)
          (ap (λ t. (client, t) ∷ old) (append-nil (take sent text)))

    counted_once :
        ltb_ℤ (pos 0) outcome ≡ false
        → (errno (next_send ∷ calls) == eintr) ≡ true
        → interruptions kernel (next_send ∷ calls) ≡ 1 + interruptions kernel calls
    counted_once h interrupt = rw (h, interrupt) refl

    not_counted :
        ltb_ℤ (pos 0) outcome ≡ true
        → interruptions kernel (next_send ∷ calls) ≡ interruptions kernel calls
    not_counted h = ground (arith, h)

    send_failed :
        ltb_ℤ (pos 0) outcome ≡ false
        → (errno (next_send ∷ calls) == eintr) ≡ false
        → is_failed kernel calls client (drop sent text) ≡ true
    send_failed h fail = rw (h, fail) refl

    fail_step :
        (f : ℕ)
        → ltb sent (length text) ≡ true
        → ltb_ℤ (pos 0) outcome ≡ false
        → (errno (next_send ∷ calls) == eintr) ≡ false
        → send_all kernel (suc f) client text sent calls ≡ some (next_send ∷ calls)
    unfolding send_all
    fail_step f left stuck fail = rw (left, stuck, fail) refl

    done_step :
        (f : ℕ)
        → ltb sent (length text) ≡ false
        → send_all kernel (suc f) client text sent calls ≡ some calls
    unfolding send_all
    done_step f done = rw done refl

    -- Each round uses up fuel: a byte went, or one of the `k` interruptions kernel came.
    fuel_onward :
        (k f : ℕ)
        → ltb sent (length text) ≡ true
        → ltb_ℤ (pos 0) outcome ≡ true
        → (length text - sent) + (k - interruptions kernel calls) < suc f
        → (length text - (sent + pos_part outcome)) + (k - interruptions kernel (next_send ∷ calls))
          < f
    fuel_onward k f left went lt =
        let n : 0 < pos_part outcome = ground (arith, went) in
        let l = ltb→lt sent (length text) left in let i = not_counted went in omega arith

    fuel_again :
        (k f : ℕ)
        → interruptions kernel (next_send ∷ calls) ≤ k
        → ltb_ℤ (pos 0) outcome ≡ false
        → (errno (next_send ∷ calls) == eintr) ≡ true
        → (length text - sent) + (k - interruptions kernel calls) < suc f
        → (length text - sent) + (k - interruptions kernel (next_send ∷ calls)) < f
    fuel_again k f few stuck interrupt lt = let i = counted_once stuck interrupt in omega arith

  module _ (k : ℕ) (sane : Sane kernel k) (client : ℤ) (text : Text) (old : List (ℤ × Text)) where
    -- With fuel for the bytes that are left and for the interruptions kernel to come, the loop ends.
    pub send_all-Sent :
        (f sent : ℕ) (calls : List Call)
        → sent ≤ length text
        → deliveries kernel calls ≡ (client, take sent text) ∷ old
        → (length text - sent) + (k - interruptions kernel calls) < f
        → Ends client text old calls (send_all kernel f client text sent calls)
    send_all-Sent zero sent calls le d lt = absurd (omega arith)
    send_all-Sent (suc f) sent calls le d lt =
        let call = next_send client text sent calls in
        let n = outcome client text sent calls in
        elim (Bool-cases (ltb sent (length text))) [
          | inr done ↦ (
            calls,
            done_step client text sent calls f done,
            record {
              got = text;
              is_got = whole;
              delivered = d ∙ ap (λ t. (client, t) ∷ old) (take_all sent text (ground arith));
              same_open = refl;
            },
          )
          | inl left ↦ elim (Bool-cases (ltb_ℤ (pos 0) n)) [
            | inl went ↦
                later calls (call ∷ calls) (onward_step client text sent calls f left went) refl (
                  send_all-Sent f (sent + pos_part n) (call ∷ calls)
                    (let h = sane.fits calls client (drop sent text) in
                      omega (arith, length-drop sent text, ltb→lt sent (length text) left))
                    (rw (d, eqb_ℤ_refl client)
                      (ap (λ t. (client, t) ∷ old) (take-more sent (pos_part n) text)))
                    (fuel_onward client text sent calls k f left went lt))
            | inr stuck ↦ elim (Bool-cases (errno (call ∷ calls) == eintr)) [
              | inl interrupt ↦
                  later calls (call ∷ calls)
                    (again_step client text sent calls f left stuck interrupt) refl
                    (send_all-Sent f sent (call ∷ calls) le
                      (deliveries_still client text sent calls old stuck d)
                      (fuel_again client text sent calls k f (sane.interrupted (call ∷ calls)) stuck
                        interrupt lt))
              | inr fail ↦ (
                call ∷ calls,
                fail_step client text sent calls f left stuck fail,
                record {
                  got = take sent text;
                  is_got = front sent calls (send_failed client text sent calls stuck fail);
                  delivered = deliveries_still client text sent calls old stuck d;
                  same_open = refl;
                },
              )
            ]
          ]
        ]
