-- ===== src/Broker/Ledger/Tests.antt =====
-- A ledger of one relay, with room for two.
use openrung.Base.{◌≡◌, refl, [], ◌∷◌, arith}
use openrung.Base.Bytes.{Bytes}
use openrung.Base.Map.{lookup}
use openrung.Broker.Ledger.{RelayIdLedger, covered, remember_if_new}
use openrung.Broker.Ledger.Coverage.{IsValid, covered-remember_if_new_ne}

abbrev old_relay : Bytes
old_relay = 0 ∷ []

abbrev new_relay : Bytes
new_relay = 1 ∷ []

abbrev volunteer : Bytes
volunteer = 118 ∷ []

abbrev ledger : RelayIdLedger
ledger = record {
  ttl = 100;
  max_entries = 2;
  seen = (old_relay, record { seen_at = 5; node_class = volunteer }) ∷ [];
}

ledger-IsValid : IsValid ledger
unfolding lookup
ledger-IsValid = record { unique = (refl, tt); bounded = omega arith }

covered-remember_if_new_ne_example :
    covered (remember_if_new ledger new_relay volunteer 50).0 old_relay 60
    ≡ covered ledger old_relay 60
covered-remember_if_new_ne_example =
    covered-remember_if_new_ne ledger new_relay volunteer old_relay 50 60 ledger-IsValid
      (omega arith) (λ e. cc)
