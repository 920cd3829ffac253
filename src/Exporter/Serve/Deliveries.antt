-- ===== src/Exporter/Serve/Deliveries.antt =====
-- What the calls of handle_event sent to the clients, and which sockets they left open.
use srtla.Base.{
  ℕ, zero, suc, ◌+◌, ◌-◌, ◌≤◌, ◌≡◌, refl, sym, ◌∙◌, ap, Bool, true, not, ◌&&◌, List, [], ◌∷◌, ◌++◌,
  ◌==◌, if◌then◌else◌, ℤ, pos, pos_part, ltb_ℤ, eqb_ℤ, length, take, drop, arith,
}
use srtla.Exporter.Serve.{Call, accept4, send, close, socket, Kernel, eintr}
use srtla.NetworkUtils.Sockets.{made, closed}
use srtla.Text.{Text}

take_nil : (n : ℕ) → take {A = ℕ} n [] ≡ []
take_nil zero = refl
take_nil (suc n) = refl

suc_add : (n m : ℕ) → suc (n + m) ≡ suc n + m
suc_add n m = omega arith

pub take-more : (n m : ℕ) (t : Text) → take n t ++ take m (drop n t) ≡ take (n + m) t
take-more zero m t = ap (λ j. take j t) (omega arith)
take-more (suc n) m [] = take_nil m ∙ sym (take_nil (suc n + m))
take-more (suc n) m (c ∷ t) =
    ap (λ s. c ∷ s) (take-more n m t) ∙ ap (λ j. take j (c ∷ t)) (suc_add n m)

pub length-drop : (n : ℕ) (t : Text) → length (drop n t) ≡ length t - n
length-drop zero t = omega arith
length-drop (suc n) [] = omega arith
length-drop (suc n) (c ∷ t) = omega (arith, length-drop n t)

pub take_all : (n : ℕ) (t : Text) → length t ≤ n → take n t ≡ t
take_all zero [] h = refl
take_all zero (c ∷ t) h = absurd (omega arith)
take_all (suc n) [] h = refl
take_all (suc n) (c ∷ t) h = ap (λ s. c ∷ s) (take_all n t (omega arith))

module _ (kernel : Kernel) where
  open kernel use {ret, errno}

  -- What is sent goes to the newest client that accept4 gave this descriptor.
  abbrev pub gives : ℤ → Text → List (ℤ × Text) → List (ℤ × Text)
  gives fd t [] = []
  gives fd t ((client, d) ∷ ds) =
      let rest = gives fd t ds in
      if eqb_ℤ client fd then (client, d ++ t) ∷ ds else (client, d) ∷ rest

  -- The descriptor of each client, and what it was sent, the newest client first.
  abbrev pub deliveries : List Call → List (ℤ × Text)
  deliveries [] = []
  deliveries (accept4 fd ∷ calls) =
      let client = ret calls (accept4 fd) in
      if ltb_ℤ client (pos 0) then deliveries calls else (client, []) ∷ deliveries calls
  deliveries (send fd t ∷ calls) =
      gives fd (take (pos_part (ret calls (send fd t))) t) (deliveries calls)
  deliveries (_ ∷ calls) = deliveries calls

  -- A send that was interrupted, and one that failed otherwise.
  abbrev pub is_interrupted : List Call → ℤ → Text → Bool
  is_interrupted calls fd t =
      not (ltb_ℤ (pos 0) (ret calls (send fd t))) && errno (send fd t ∷ calls) == eintr

  abbrev pub is_failed : List Call → ℤ → Text → Bool
  is_failed calls fd t =
      not (ltb_ℤ (pos 0) (ret calls (send fd t))) && not (errno (send fd t ∷ calls) == eintr)

  -- The number of interrupted sends.
  abbrev pub interruptions : List Call → ℕ
  interruptions [] = 0
  interruptions (send fd t ∷ calls) =
      (if is_interrupted calls fd t then 1 else 0) + interruptions calls
  interruptions (_ ∷ calls) = interruptions calls

  -- The whole text, or a front of it where a send of the rest to the client failed.
  pub data Got (client : ℤ) (text : Text) : Text → Type 0 where
    whole : Got client text text
    front :
        (n : ℕ) (calls : List Call)
        → is_failed calls client (drop n text) ≡ true
        → Got client text (take n text)

  -- The sockets that are open after the calls: those made or accepted and not closed again.
  abbrev pub open_sockets : List Call → List ℕ
  open_sockets [] = []
  open_sockets (accept4 fd ∷ calls) = made (ret calls (accept4 fd)) (open_sockets calls)
  open_sockets (socket domain ∷ calls) = made (ret calls (socket domain)) (open_sockets calls)
  open_sockets (close fd ∷ calls) = closed fd (open_sockets calls)
  open_sockets (_ ∷ calls) = open_sockets calls

  -- What is assumed: send takes no more than it is given, and is interrupted `k` times at most.
  pub record Sane (k : ℕ) : Type 0 where
    pub fits : (calls : List Call) (fd : ℤ) (t : Text) → pos_part (ret calls (send fd t)) ≤ length t
    pub interrupted : (calls : List Call) → interruptions calls ≤ k
