-- ===== src/Ureq/Report.antt =====
-- src/ureq/report.c: the line that is printed for a response, as its columns. Formatting the columns
-- as text is left to printf(3) and inet_ntop(3).
use nemo_core.Prelude.{ℕ, Bool, true, Option, none, some, List, [], ◌∷◌, if◌then◌else◌}
use nemo_core.Word.{u32}
use nemo_core.Convert.{tipv6}
use nemo_core.Payload.{Payload}
use nemo_core.Ures.Report.{Address, v4, v6, ttl_column}
use nemo_core.Ureq.Config.{Config}

pub record Row : Type 0 where
  pub key : ℕ
  pub len : ℕ
  pub seq_num : ℕ
  pub seq_len : ℕ
  pub host_req : List ℕ
  pub host_res : List ℕ
  pub addr_res : Address
  pub port_res : ℕ
  pub ttl_dep_req : ℕ
  pub ttl_arr_res : Option ℕ
  pub ttl_dep_res : ℕ
  pub ttl_arr_req : Option ℕ
  pub real_dep_req : ℕ
  pub real_arr_res : ℕ
  pub real_arr_req : ℕ
  pub mono_dep_req : ℕ
  pub mono_arr_res : ℕ
  pub mono_arr_req : ℕ

unfoldable pub report_event : Payload → List ℕ → ℕ → ℕ → ℕ → ℕ → ℕ → Config → Option Row
unfolding ttl_column
report_event hpl hn real mono ttl la ha cf =
    if cf.cf_sil
    then none
    else some (record {
      key = hpl.pl_key;
      len = hpl.pl_len;
      seq_num = hpl.pl_snum;
      seq_len = hpl.pl_slen;
      host_req = hn;
      host_res = hpl.pl_host;
      addr_res = if cf.cf_ipv4 then v4 (u32 la) else v6 (tipv6 la ha);
      port_res = cf.cf_port;
      ttl_dep_req = cf.cf_ttl;
      ttl_arr_res = ttl_column hpl.pl_ttl2;
      ttl_dep_res = hpl.pl_ttl1;
      ttl_arr_req = ttl_column ttl;
      real_dep_req = hpl.pl_rtm1;
      real_arr_res = hpl.pl_rtm2;
      real_arr_req = real;
      mono_dep_req = hpl.pl_mtm1;
      mono_arr_res = hpl.pl_mtm2;
      mono_arr_req = mono;
    })

-- The columns that the header line names.
pub data Column : Type 0 where
  key_column len_column seq_num_column seq_len_column : Column
  host_req_column host_res_column addr_res_column port_res_column : Column
  ttl_dep_req_column ttl_arr_res_column ttl_dep_res_column ttl_arr_req_column : Column
  real_dep_req_column real_arr_res_column real_arr_req_column : Column
  mono_dep_req_column mono_arr_res_column mono_arr_req_column : Column

unfoldable pub report_header : Config → Option (List Column)
report_header cf =
    if cf.cf_sil
    then none
    else some (
        key_column ∷ len_column ∷ seq_num_column ∷ seq_len_column ∷ host_req_column
        ∷ host_res_column ∷ addr_res_column ∷ port_res_column ∷ ttl_dep_req_column
        ∷ ttl_arr_res_column ∷ ttl_dep_res_column ∷ ttl_arr_req_column ∷ real_dep_req_column
        ∷ real_arr_res_column ∷ real_arr_req_column ∷ mono_dep_req_column ∷ mono_arr_res_column
        ∷ mono_arr_req_column ∷ [])

-- `fflush` is false where fflush(3) returns -1.
unfoldable pub flush_report_stream : Bool → Config → Bool
flush_report_stream fflush cf = if cf.cf_sil then true else fflush
