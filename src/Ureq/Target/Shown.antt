-- ===== src/Ureq/Target/Shown.antt =====
-- src/ureq/target.c, log_targets: the entries that the log is given for the targets.
use nemo_core.Prelude.{
  ℕ, zero, suc, ◌≡◌, refl, ap₂, Bool-cases, inl, inr, Option, List, [], ◌∷◌, map, take,
  if◌then◌else◌,
}
use nemo_core.Word.{u32}
use nemo_core.Convert.{ByteOrder, tipv6}
use nemo_core.Payload.{SockAddr, inet, inet6}
use nemo_core.Ures.Report.{Address, v4, v6}
use nemo_core.Ureq.Config.{Config}
use nemo_core.Ureq.Target.{Target}
use nemo_core.Ureq.Round.{set_address}

-- The binary address given to inet_ntop(3), and the name that it was resolved from.
pub record Entry : Type 0 where
  pub address : Address
  pub name : Option ℕ

unfoldable pub log_targets : List Target → ℕ → Config → List Entry
log_targets tg zero cf = []
log_targets [] (suc cnt) cf = []
log_targets (t ∷ tg) (suc cnt) cf =
    record {
      address = if cf.cf_ipv4 then v4 (u32 t.tg_laddr) else v6 (tipv6 t.tg_laddr t.tg_haddr);
      name = t.tg_name;
    }
    ∷ log_targets tg cnt cf

abbrev pub address_of : SockAddr → Address
address_of (inet port addr) = v4 addr
address_of (inet6 port addr) = v6 addr

-- The addresses in the log are those that the requests are sent to.
pub log_targets-set_address :
    (bo : ByteOrder) (cf : Config) (tg : List Target) (cnt : ℕ)
    → map (λ (e : Entry). e.address) (log_targets tg cnt cf)
      ≡ map (λ t. address_of (set_address bo t cf)) (take cnt tg)
unfolding log_targets set_address
log_targets-set_address bo cf tg zero = refl
log_targets-set_address bo cf [] (suc cnt) = refl
log_targets-set_address bo cf (t ∷ tg) (suc cnt) =
    let rest = log_targets-set_address bo cf tg cnt in
    elim (Bool-cases cf.cf_ipv4) [
      | inl e ↦ ap₂ ◌∷◌ (rw e refl) rest
      | inr e ↦ ap₂ ◌∷◌ (rw e refl) rest
    ]
