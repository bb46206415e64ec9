-- ===== src/Tokens/Tests.antt =====
-- A user who asks for a code twice, for nodejs/models/token.js.
use theta_directory.Base.{
  ◌+◌, ◌≤◌, true, List, [], none, some, is_some, codes, ◌==◌, ◌≡◌, ◌≢◌, arith, ◌↔◌, refl,
}
use theta_directory.Tokens.{Otp, issue, verify, retire, is_match, is_expired, spend}
use theta_directory.Tokens.Single.{
  Reachable, empty, issued, Later, at_once, then_verified, then_issued, verify-once, issue-verify,
}

abbrev twice : List Otp
twice =
    issue 2000 (codes "t2") (codes "654321") (codes "ann") (codes "email")
      (issue 1000 (codes "t1") (codes "123456") (codes "ann") (codes "email") [])

twice-Reachable : Reachable twice
twice-Reachable = issued _ 2000 _ _ _ _ (issued [] 1000 _ _ _ _ empty)

abbrev second : Otp
second = record {
  token = codes "t2";
  uid = codes "ann";
  code = codes "654321";
  method = codes "email";
  is_valid = true;
  expires_at = 602000;
}

accepted : (verify 3000 (codes "ann") (codes "654321") twice).0 ≡ some second
unfolding verify issue retire is_match is_expired spend ◌==◌
accepted = refl

-- Another user gets a code, and a wrong code is tried, before the code comes again.
abbrev spent : List Otp
spent = (verify 3000 (codes "ann") (codes "654321") twice).1

abbrev meanwhile : List Otp
meanwhile =
    (verify 3500 (codes "ann") (codes "111111")
      (issue 3200 (codes "t3") (codes "654321") (codes "bob") (codes "sms") spent)).1

bob≢ann : codes "bob" ≢ codes "ann"
bob≢ann h = ground arith

meanwhile-Later : Later (codes "ann") spent meanwhile
meanwhile-Later = then_verified _ _ 3500 _ _ (then_issued _ _ 3200 _ _ _ _ bob≢ann (at_once _))

verify-once_example : (verify 4000 (codes "ann") (codes "654321") meanwhile).0 ≡ none
verify-once_example =
    verify-once twice twice-Reachable 3000 4000 (codes "ann") (codes "654321") (codes "654321")
      second meanwhile accepted meanwhile-Later

issue-verify_example :
    (is_some
        (verify 3000
          (codes "ann")
          (codes "123456")
          (issue 2000 (codes "t2") (codes "654321") (codes "ann") (codes "email") [])).0
      ≡ true)
    ↔ ((codes "654321" ≡ codes "123456") × (3000 ≤ 2000 + 600000))
issue-verify_example =
    issue-verify [] 2000 3000 (codes "t2") (codes "654321") (codes "ann") (codes "email")
      (codes "123456")
