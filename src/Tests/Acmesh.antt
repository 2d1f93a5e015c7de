-- ===== src/Tests/Acmesh.antt =====
-- The output of a script that failed, read whole and cut off.
use dockerset.Base.{◌≡◌, refl, true, some, ok, err, Bytes, arith, codes, ◌===◌, if◌then◌else◌}
use dockerset.Go.Text.{has_prefix, index_of, split}
use dockerset.Acmesh.{Calls, acme_failed, do_dns_api}
use dockerset.Acmesh.Laws.{output_of, do_dns_api-printed}

abbrev output : Bytes
output = output_of (codes "acme.sh") (codes "17")

abbrev calls : Calls
calls = record {
  config = true;
  secret = some (some true);
  temporary = true;
  started = true;
  content = some output;
}

do_dns_api-printed_example :
    do_dns_api 64 calls
    ≡ (if codes "17" === codes "0" then ok tt else err (acme_failed (codes "17")))
do_dns_api-printed_example =
    do_dns_api-printed 64 calls (codes "acme.sh") (codes "17") refl refl refl refl refl
      (omega arith) (search tt)

failed_with_17 : do_dns_api 64 calls ≡ err (acme_failed (codes "17"))
unfolding do_dns_api split has_prefix index_of ◌===◌
failed_with_17 = refl

-- Where the buffer ends before the line, the failure is taken for a success.
cut_off : do_dns_api 8 calls ≡ ok tt
unfolding do_dns_api split has_prefix index_of ◌===◌
cut_off = refl
