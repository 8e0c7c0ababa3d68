-- ===== src/Http/Client.antt =====
-- The address that stands for the client: backend/internal/httpx/clientip.go. strings.TrimSpace is a
-- parameter, and so is the host that net.SplitHostPort gives (`none` is its error). Texts are their bytes.
pub mod Spoofed
use crapnote.Base.{
  ℕ, Bool, true, false, Option, none, some, List, [], ◌∷◌, ◌++◌, ◌==◌, split_on, if◌then◌else◌,
}
use crapnote.Db.{Bytes}

-- What is read of a request: a header that is not there is empty, and the two values of the context are
-- those under clientIPKey and proxyTrustedKey.
pub record Incoming : Type 0 where
  pub remote_addr : Bytes
  pub forwarded_for : Bytes
  pub real_ip : Bytes
  pub client_ip_value : Option Bytes
  pub proxy_trusted_value : Option Bool

-- The text, or another one if it is empty.
abbrev pub or_else : Bytes → Bytes → Bytes
or_else [] other = other
or_else (c ∷ cs) other = c ∷ cs

-- entries[len(entries)-1]
unfoldable pub last_entry : List Bytes → Bytes
last_entry [] = []
last_entry (e ∷ []) = e
last_entry (e ∷ f ∷ fs) = last_entry (f ∷ fs)

abbrev pub proxy_trusted : Incoming → Bool
proxy_trusted r = elim r.proxy_trusted_value [ none ↦ false | some trusted ↦ trusted ]

module _ (split_host_port : Bytes → Option Bytes) (trim_space : Bytes → Bytes) where
  unfoldable pub remote_host : Incoming → Bytes
  remote_host r = elim (split_host_port r.remote_addr) [ none ↦ r.remote_addr | some host ↦ host ]

  -- The rightmost entry of X-Forwarded-For; empty if the header is.
  unfoldable pub rightmost : Bytes → Bytes
  rightmost [] = []
  rightmost (c ∷ cs) = trim_space (last_entry (split_on 44 [] (c ∷ cs)))

  unfoldable pub forwarded_ip : Incoming → Bytes
  forwarded_ip r =
      or_else (rightmost r.forwarded_for) (or_else (trim_space r.real_ip) (remote_host r))

  -- What TrustProxy hands to the next handler.
  unfoldable pub trust_proxy : Incoming → Incoming
  trust_proxy r = record r {
    client_ip_value = some (forwarded_ip r);
    proxy_trusted_value = some true;
  }

  unfoldable pub client_ip : Incoming → Bytes
  client_ip r = elim r.client_ip_value [
    | none ↦ remote_host r
    | some ip ↦ or_else ip (remote_host r)
  ]
