-- ===== src/Http/Client/Spoofed.antt =====
-- What a client that writes its own headers can reach: backend/internal/httpx/clientip.go.
use crapnote.Base.{
  ◌≡◌, ◌≢◌, refl, sym, ap, Bool, true, false, Option, List, [], ◌∷◌, ◌++◌, ◌==◌, split_on,
  Bool-cases, inl, inr, if◌then◌else◌, arith,
}
use mathlib.Core.List.{append-nil, append_assoc}
use crapnote.Db.{Bytes}
use crapnote.Http.Client.{
  Incoming, or_else, last_entry, rightmost, forwarded_ip, trust_proxy, client_ip,
}

unfoldable pub has_comma : Bytes → Bool
has_comma [] = false
has_comma (c ∷ cs) = let rest = has_comma cs in if c == 44 then true else rest

split_on-append :
    (field spoofed entry : Bytes)
    → split_on 44 field (spoofed ++ 44 ∷ entry) ≡ split_on 44 field spoofed ++ split_on 44 [] entry
unfolding split_on
split_on-append field [] entry = refl
split_on-append field (c ∷ cs) entry = elim (Bool-cases (c == 44)) [
  | inl e ↦ rw (e, split_on-append [] cs entry) refl
  | inr e ↦ rw (e, split_on-append (field ++ c ∷ []) cs entry) refl
]

last_entry-onto : (e : Bytes) (es : List Bytes) (f : Bytes) → last_entry (e ∷ es ++ f ∷ []) ≡ f
unfolding last_entry
last_entry-onto e [] f = refl
last_entry-onto e (d ∷ ds) f = last_entry-onto d ds f

last_entry-append :
    (field spoofed entry : Bytes) → last_entry (split_on 44 field spoofed ++ entry ∷ []) ≡ entry
unfolding split_on
last_entry-append field [] entry = last_entry-onto field [] entry
last_entry-append field (c ∷ cs) entry = elim (Bool-cases (c == 44)) [
  | inl e ↦ rw e (last_entry-onto field (split_on 44 [] cs) entry)
  | inr e ↦ rw e (last_entry-append (field ++ c ∷ []) cs entry)
]

-- A text without a comma is one entry.
split_on-single :
    (field entry : Bytes)
    → has_comma entry ≡ false
    → split_on 44 field entry ≡ (field ++ entry) ∷ []
unfolding split_on has_comma
split_on-single field [] h = ap (λ s. s ∷ []) (sym (append-nil field))
split_on-single field (c ∷ cs) h = elim (Bool-cases (c == 44)) [
  | inl e ↦ let absurd = rw e at h in ground arith
  | inr e ↦
      let rest = rw e at h in
      let tail = split_on-single (field ++ c ∷ []) cs rest in
      rw (e, tail) (ap (λ s. s ∷ []) (append_assoc field (c ∷ []) cs))
]

-- Wherever a header starts, the entry behind its last comma is the last one.
last_entry-split :
    (spoofed entry : Bytes)
    → has_comma entry ≡ false
    → last_entry (split_on 44 [] (spoofed ++ 44 ∷ entry)) ≡ entry
last_entry-split spoofed entry h =
    rw (split_on-append [] spoofed entry, split_on-single [] entry h)
      (last_entry-append [] spoofed entry)

module _ (split_host_port : Bytes → Option Bytes) (trim_space : Bytes → Bytes) where
  rightmost-append :
      (spoofed entry : Bytes)
      → has_comma entry ≡ false
      → rightmost split_host_port trim_space (spoofed ++ 44 ∷ entry) ≡ trim_space entry
  unfolding rightmost
  rightmost-append [] entry h = ap trim_space (last_entry-split [] entry h)
  rightmost-append (c ∷ cs) entry h = ap trim_space (last_entry-split (c ∷ cs) entry h)

  or_else-left : (s t u : Bytes) → s ≢ [] → or_else (or_else s t) u ≡ s
  or_else-left [] t u h = elim (h refl) [ ]
  or_else-left (c ∷ cs) t u h = refl

  -- Behind the trusted proxy, the client's address is the entry that the proxy put behind the last comma
  -- of X-Forwarded-For, without the space around it, if something is left of it: neither what stands
  -- before that comma nor X-Real-IP nor the peer's address has a say.
  pub client_ip-trust_proxy :
      (spoofed entry : Bytes) (r : Incoming)
      → has_comma entry ≡ false
      → trim_space entry ≢ []
      → client_ip split_host_port trim_space (
          trust_proxy split_host_port trim_space
            (record r { forwarded_for = spoofed ++ 44 ∷ entry }))
        ≡ trim_space entry
  unfolding client_ip trust_proxy forwarded_ip
  client_ip-trust_proxy spoofed entry r h some_left =
      rw (rightmost-append spoofed entry h) (or_else-left (trim_space entry) _ _ some_left)
