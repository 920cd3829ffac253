-- ===== src/Exporter/Serve/Http.antt =====
-- A response of the exporter as an HTTP client reads it.
use mathlib.Core.List.{append_assoc}
use srtla.Base.{
  ℕ, zero, suc, ◌-◌, ◌<◌, ◌^◌, ◌≡◌, refl, sym, ◌∙◌, ap, subst, Bool, true, false, ◌&&◌, Option,
  none, some, [], ◌∷◌, ◌++◌, ◌==◌, leb, if◌then◌else◌, any, length, take, drop, arith, Bool-cases,
  inl, inr, length-append, length-take, leb→le,
}
use srtla.Base.Assoc.{bytes_beq}
use srtla.Exporter.Serve.{response}
use srtla.Exporter.Serve.Deliveries.{take_all}
use srtla.Text.{Text, codes, has, natural, to_string, split_at, is_digit}
use srtla.Text.Decimal.{has-append, natural-to_string, has-to_string}
use srtla.Text.Lines.{split_at-append}

abbrev onto : ℕ → Option (Text × Text) → Option (Text × Text)
onto c none = none
onto c (some (l, rest)) = some (c ∷ l, rest)

-- The first line, and what follows its newline.
next_line : Text → Option (Text × Text)
next_line [] = none
next_line (c ∷ s) = if c == b'\n' then some ([], s) else onto c (next_line s)

begins : Text → Text → Bool
begins [] s = true
begins (x ∷ p) [] = false
begins (x ∷ p) (y ∷ s) = x == y && begins p s

-- The field that tells the length of the body; other fields do not change it.
content_length : Option ℕ → Text → Option ℕ
unfolding begins
content_length known l =
    if begins (codes "Content-Length: ") l then natural (split_at b'\r' (drop 16 l)).0 else known

-- As many bytes as were announced, once they have come.
abbrev finish : Option ℕ → Text → Option Text
finish none rest = none
finish (some n) rest = if leb n (length rest) then some (take n rest) else none

-- The lines up to the blank one, `f` at most, and the body.
read_head : ℕ → Option ℕ → Text → Option Text
read_head zero known text = none
read_head (suc f) known text = elim (next_line text) [
  | none ↦ none
  | some (l, rest) ↦
      if bytes_beq l (codes "\r")
      then finish known rest
      else read_head f (content_length known l) rest
]

unfoldable pub read_response : Text → Option Text
unfolding read_head next_line content_length
read_response text = read_head 100 none text

next_line_front :
    (l rest : Text) (n : ℕ)
    → has b'\n' l ≡ false
    → next_line (take n (l ++ (b'\n' ∷ rest)))
      ≡ (if leb n (length l) then none else some (l, take (n - length l - 1) rest))
unfolding next_line has any
next_line_front [] rest zero h = refl
next_line_front [] rest (suc n) h = ground arith
next_line_front (c ∷ l) rest zero h = ground arith
next_line_front (c ∷ l) rest (suc n) h = ground (arith, next_line_front l rest n)

-- The reader makes `r` of the text, and nothing of a front of it.
abbrev Reads : ℕ → Option ℕ → Text → Option Text → Type 0
Reads f known text r =
    (n : ℕ) → read_head f known (take n text) ≡ (if leb (length text) n then r else none)

leb_self : (n : ℕ) → leb n n ≡ true
leb_self n = ground arith

abbrev on_line : ℕ → Option ℕ → Option (Text × Text) → Option Text
on_line f known none = none
on_line f known (some (l, rest)) =
    if bytes_beq l (codes "\r")
    then finish known rest
    else read_head f (content_length known l) rest

read_head_step :
    (f : ℕ) (known : Option ℕ) (text : Text)
    → read_head (suc f) known text ≡ on_line f known (next_line text)
unfolding read_head
read_head_step f known text = refl

Reads-line :
    (f : ℕ) (known : Option ℕ) (l rest : Text) (r : Option Text)
    → has b'\n' l ≡ false
    → bytes_beq l (codes "\r") ≡ false
    → Reads f (content_length known l) rest r
    → Reads (suc f) known (l ++ (b'\n' ∷ rest)) r
Reads-line f known l rest r h b reads n =
    let whole = length-append l (b'\n' ∷ rest) in
    read_head_step f known (take n (l ++ (b'\n' ∷ rest)))
    ∙ ap (on_line f known) (next_line_front l rest n h)
    ∙ elim (Bool-cases (leb n (length l))) [
      | inl short ↦ ground (arith, short, whole)
      | inr long ↦ rw (long, b, reads (n - length l - 1)) (ground (arith, long, whole))
    ]

finish_body :
    (body : Text) (m : ℕ)
    → finish (some (length body)) (take m body) ≡ (if leb (length body) m then some body else none)
finish_body body m = elim (Bool-cases (leb (length body) m)) [
  | inl long ↦
      let all = take_all m body (leb→le _ _ long) in
      rw (long, all)
        (ap (λ (b : Bool). if b then some (take (length body) body) else none)
            (leb_self (length body))
          ∙ ap some (take_all (length body) body (omega arith)))
  | inr short ↦ let l = length-take m body in rw short (ground (arith, short, l))
]

Reads-body :
    (f : ℕ) (body : Text) → Reads (suc f) (some (length body)) (codes "\r\n" ++ body) (some body)
Reads-body f body n =
    read_head_step f (some (length body)) (take n (codes "\r\n" ++ body))
    ∙ ap (on_line f (some (length body)))
        (next_line_front (codes "\r") body n (unfold has any in refl))
    ∙ elim (Bool-cases (leb n 1)) [
      | inl short ↦ ground (arith, short)
      | inr long ↦ rw long (finish_body body (n - 1 - 1) ∙ ground (arith, long))
    ]

-- The line with the length of the body, without its newline.
length_line : Text → Text
length_line body = codes "Content-Length: " ++ (to_string (length body) ++ codes "\r")

content_length-length_line :
    (body : Text)
    → length body < 10 ^ 20
    → content_length none (length_line body) ≡ some (length body)
unfolding content_length length_line
content_length-length_line body h =
    ap (λ (p : Text × Text). natural p.0)
      (split_at-append b'\r' (to_string (length body)) []
        (has-to_string b'\r' (length body) (unfold is_digit in refl)))
    ∙ natural-to_string (length body) h

length_line_clean : (body : Text) → has b'\n' (length_line body) ≡ false
unfolding length_line has any
length_line_clean body =
    has-append b'\n' (to_string (length body)) (codes "\r")
    ∙ rw (has-to_string b'\n' (length body) (unfold is_digit in refl)) refl

abbrev status_line : Text
status_line = codes "HTTP/1.1 200 OK\r"

abbrev type_line : Text
type_line = codes "Content-Type: text/plain; version=0.0.4\r"

abbrev connection_line : Text
connection_line = codes "Connection: close\r"

response-lines :
    (body : Text)
    → response body
      ≡ status_line
        ++ (b'\n'
            ∷ (type_line
                ++ (b'\n'
                    ∷ (length_line body
                        ++ (b'\n' ∷ (connection_line ++ (b'\n' ∷ (codes "\r\n" ++ body))))))))
unfolding response length_line
response-lines body =
    ap
      (λ t.
        codes "HTTP/1.1 200 OK\r\nContent-Type: text/plain; version=0.0.4\r\nContent-Length: " ++ t)
      (sym (append_assoc (to_string (length body)) (codes "\r") _))

-- A client that is sent the first bytes of a response with a body below 10^20 bytes takes them for
-- complete exactly if they are all of it, and then has the body; of a front it makes nothing.
pub read_response-response :
    (body : Text) (n : ℕ)
    → length body < 10 ^ 20
    → read_response (take n (response body))
      ≡ (if leb (length (response body)) n then some body else none)
unfolding read_response
read_response-response body n h =
    let blank = Reads-body 95 body in
    let r4 =
      Reads-line 96 (some (length body)) connection_line (codes "\r\n" ++ body) (some body)
        (unfold has any in refl) refl (unfold content_length in blank) in
    let r3 =
      Reads-line 97 none (length_line body) (connection_line ++ (b'\n' ∷ (codes "\r\n" ++ body)))
        (some body) (length_line_clean body) (unfold length_line in refl)
        (subst (λ k. Reads 97 k (connection_line ++ (b'\n' ∷ (codes "\r\n" ++ body))) (some body))
          (sym (content_length-length_line body h)) r4) in
    let r2 =
      Reads-line 98 none type_line
        (length_line body ++ (b'\n' ∷ (connection_line ++ (b'\n' ∷ (codes "\r\n" ++ body)))))
        (some body) (unfold has any in refl) refl (unfold content_length in r3) in
    let r1 =
      Reads-line 99 none status_line _ (some body) (unfold has any in refl) refl
        (unfold content_length in r2) in
    subst (λ t. Reads 100 none t (some body)) (sym (response-lines body)) r1 n
