-- ===== src/Ures/Report.antt =====
-- src/ures/report.c: the line that is printed for a request, as its columns. Formatting the columns
-- as text is left to printf(3) and inet_ntop(3).
use nemo_core.Prelude.{ℕ, Bool, true, Option, none, some, List, [], ◌∷◌, ◌==◌, if◌then◌else◌}
use nemo_core.Word.{u32}
use nemo_core.Convert.{tipv6}
use nemo_core.Payload.{Payload}
use nemo_core.Ures.Config.{Config}

-- The binary address given to inet_ntop(3).
pub data Address : Type 0 where
  v4 : ℕ → Address
  v6 : List ℕ → Address

-- `none` is "N/A".
unfoldable pub ttl_column : ℕ → Option ℕ
ttl_column ttl = if ttl == 0 then none else some ttl

pub record Row : Type 0 where
  pub key : ℕ
  pub len : ℕ
  pub seq_num : ℕ
  pub seq_len : ℕ
  pub host_req : List ℕ
  pub addr_req : Address
  pub port_req : ℕ
  pub host_res : List ℕ
  pub ttl_dep_req : ℕ
  pub ttl_arr_res : Option ℕ
  pub real_dep_req : ℕ
  pub real_arr_res : ℕ
  pub mono_dep_req : ℕ
  pub mono_arr_res : ℕ

unfoldable pub report_event : Payload → List ℕ → ℕ → ℕ → ℕ → Config → Option Row
unfolding ttl_column
report_event pl hn la ha pn cf =
    if cf.cf_sil
    then none
    else some (record {
      key = pl.pl_key;
      len = pl.pl_len;
      seq_num = pl.pl_snum;
      seq_len = pl.pl_slen;
      host_req = pl.pl_host;
      addr_req = if cf.cf_ipv4 then v4 (u32 la) else v6 (tipv6 la ha);
      port_req = pn;
      host_res = hn;
      ttl_dep_req = pl.pl_ttl1;
      ttl_arr_res = ttl_column pl.pl_ttl2;
      real_dep_req = pl.pl_rtm1;
      real_arr_res = pl.pl_rtm2;
      mono_dep_req = pl.pl_mtm1;
      mono_arr_res = pl.pl_mtm2;
    })

-- The columns that the header line names.
pub data Column : Type 0 where
  key_column len_column seq_num_column seq_len_column : Column
  host_req_column addr_req_column port_req_column host_res_column : Column
  ttl_dep_req_column ttl_arr_res_column : Column
  real_dep_req_column real_arr_res_column : Column
  mono_dep_req_column mono_arr_res_column : Column

unfoldable pub report_header : Config → Option (List Column)
report_header cf =
    if cf.cf_sil
    then none
    else some (
        key_column ∷ len_column ∷ seq_num_column ∷ seq_len_column ∷ host_req_column
        ∷ addr_req_column ∷ port_req_column ∷ host_res_column ∷ ttl_dep_req_column
        ∷ ttl_arr_res_column ∷ real_dep_req_column ∷ real_arr_res_column ∷ mono_dep_req_column
        ∷ mono_arr_res_column ∷ [])

-- `fflush` is false where fflush(3) returns -1.
unfoldable pub flush_report_stream : Bool → Config → Bool
flush_report_stream fflush cf = if cf.cf_sil then true else fflush
