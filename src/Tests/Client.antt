-- ===== src/Tests/Client.antt =====
-- A request through the proxy whose client claims the address 1.1.1.1 in both headers.
use crapnote.Base.{◌≡◌, ◌≢◌, refl, arith, false, none, some, [], ◌∷◌, ◌==◌, if◌then◌else◌, codes}
use crapnote.Db.{Bytes}
use crapnote.Http.Client.{Incoming, trust_proxy, client_ip}
use crapnote.Http.Client.Spoofed.{has_comma, client_ip-trust_proxy}

abbrev forged : Incoming
forged = record {
  remote_addr = codes "10.0.0.1:99";
  forwarded_for = [];
  real_ip = codes "1.1.1.1";
  client_ip_value = none;
  proxy_trusted_value = none;
}

-- strings.TrimSpace for a blank before the text.
abbrev trim_blanks : Bytes → Bytes
trim_blanks [] = []
trim_blanks (c ∷ cs) = if c == 32 then cs else c ∷ cs

abbrev appended : Bytes
appended = codes " 9.9.9.9"

no_comma : has_comma appended ≡ false
unfolding has_comma
no_comma = refl

some_left : trim_blanks appended ≢ []
some_left = λ e. ground arith

client_ip-trust_proxy_example :
    client_ip some trim_blanks
      (trust_proxy some trim_blanks (record forged { forwarded_for = codes "1.1.1.1, 9.9.9.9" }))
    ≡ codes "9.9.9.9"
client_ip-trust_proxy_example =
    client_ip-trust_proxy some trim_blanks (codes "1.1.1.1") appended forged no_comma some_left
