-- ===== src/Receiver/Quiet.antt =====
-- What the receiver's calls, counters and sends leave alone, and when the table stays valid.
use srtla.Base.{ℕ, ◌≡◌, refl, sym, ◌∙◌, subst, List, leb, length, Bool-cases, inl, inr, arith}
use srtla.Addr.{SockAddr}
use srtla.Group.{Group}
use srtla.Metrics.{Counter}
use srtla.Os.{Os, Syscall}
use srtla.Registry.{remove_group}
use srtla.Registry.Valid.{IsValid, remove_group-IsValid}
use srtla.Receiver.{Receiver, count, call, pad_sendto, write_socket_info_file, destroy, drop_group}

-- The table, the identities, the limiter and the clean-up time are as they were.
pub record Quiet (r s : Receiver) : Type 0 where
  pub groups : s.groups ≡ r.groups
  pub next : s.next ≡ r.next
  pub entries : s.entries ≡ r.entries
  pub last_run : s.last_run ≡ r.last_run

pub Quiet-refl : (r : Receiver) → Quiet r r
Quiet-refl r = record { groups = refl; next = refl; entries = refl; last_run = refl }

pub Quiet-trans : (r s t : Receiver) → Quiet r s → Quiet s t → Quiet r t
Quiet-trans r s t p q = record {
  groups = q.groups ∙ p.groups;
  next = q.next ∙ p.next;
  entries = q.entries ∙ p.entries;
  last_run = q.last_run ∙ p.last_run;
}

pub count-Quiet : (c n : ℕ) (r : Receiver) → Quiet r (count c n r)
unfolding count
count-Quiet c n r = record { groups = refl; next = refl; entries = refl; last_run = refl }

pub call-Quiet : (c : Syscall) (r : Receiver) → Quiet r (call c r)
unfolding call
call-Quiet c r = record { groups = refl; next = refl; entries = refl; last_run = refl }

pub pad_sendto-Quiet :
    (os : Os) (r : Receiver) (addr : SockAddr) (buf : List ℕ) → Quiet r (pad_sendto os r addr buf).1
unfolding pad_sendto
pad_sendto-Quiet os r addr buf = elim (Bool-cases (leb 32 (length buf))) [
  | inl e ↦ rw e (record { groups = refl; next = refl; entries = refl; last_run = refl })
  | inr e ↦ rw e (record { groups = refl; next = refl; entries = refl; last_run = refl })
]

pub write_socket_info_file-Quiet : (g : Group) (r : Receiver) → Quiet r (write_socket_info_file g r)
unfolding write_socket_info_file
write_socket_info_file-Quiet g r = ground arith

pub destroy-Quiet : (g : Group) (r : Receiver) → Quiet r (destroy g r)
unfolding destroy
destroy-Quiet g r = ground arith

abbrev pub Valid : Receiver → Type 0
Valid r = IsValid r.groups r.next

pub Quiet-Valid : (r s : Receiver) → Quiet r s → Valid r → Valid s
Quiet-Valid r s q v =
    subst (IsValid s.groups) (sym q.next) (subst (λ gs. IsValid gs r.next) (sym q.groups) v)

pub drop_group-groups :
    (c : Counter) (g : Group) (r : Receiver)
    → ((drop_group c g r).groups ≡ remove_group r.groups g.handle)
      × ((drop_group c g r).next ≡ r.next)
      × ((drop_group c g r).entries ≡ r.entries)
      × ((drop_group c g r).last_run ≡ r.last_run)
unfolding drop_group count
drop_group-groups c g r = let q = destroy-Quiet g _ in (q.groups, q.next, q.entries, q.last_run)

pub drop_group-Valid : (c : Counter) (g : Group) (r : Receiver) → Valid r → Valid (drop_group c g r)
drop_group-Valid c g r v =
    let q = drop_group-groups c g r in
    rw (q.0, q.1) (remove_group-IsValid r.groups r.next g.handle v)
