-- ===== src/Fx/Tests.antt =====
-- A conversion of USDT into dollars, and the theorems at it.
use giro.Prelude.{◌≡◌, refl, Option, none, some, [], ◌∷◌, ok, Bytes, Bytes-discrete, codes, pos}
use giro.Ledger.Metadata.{find_metadata}
use giro.Storage.Schema.{Transaction}
use giro.Fx.{
  Rat, Conversion, two_postings, conversion_postings, conversion_metadata, check, rate_key,
  parse_rate, invalid_rate, from_key, to_key, or_blank,
}
use giro.Prelude.{err}
use giro.Fx.Checked.{check-conversion, IsHonest, check-IsHonest}

abbrev no_other : Bytes → Option Rat
no_other s = none

abbrev sale : Conversion
sale = record {
  from = codes "USDT/6";
  seller = codes "treasury:usdt";
  sold_to = codes "external:lp:kraken:USDT";
  to = codes "USD/2";
  bought_from = codes "external:lp:kraken:USD";
  buyer = codes "treasury:usd";
  amount = some (pos 100000012345);
  rate = codes "0.99960";
}

parse_exponent : parse_rate no_other (codes "1e-3") ≡ err invalid_rate
unfolding parse_rate
parse_exponent = refl

parse_zero : parse_rate no_other (codes "0.00") ≡ err invalid_rate
unfolding parse_rate
parse_zero = refl

conversion_postings-sale : conversion_postings no_other sale ≡ ok (two_postings sale 9996001)
unfolding conversion_postings Bytes-discrete
conversion_postings-sale = refl

abbrev sold_usdt : Transaction
sold_usdt = record {
  id = 7;
  postings = two_postings sale 9996001;
  timestamp = 5000;
  inserted_at = 6000;
  reverted_at = none;
  reference = [];
  metadata = conversion_metadata sale ((codes "desk", codes "a") ∷ []);
  post_commit_volumes = [];
}

check-conversion_example : check no_other (pos 0) sold_usdt ≡ ok tt
check-conversion_example =
    check-conversion no_other sale ((codes "desk", codes "a") ∷ []) (pos 0) sold_usdt
      conversion_postings-sale refl refl

sold_usdt-rate : find_metadata rate_key sold_usdt.metadata ≡ some (codes "0.99960")
unfolding conversion_metadata find_metadata Bytes-discrete
sold_usdt-rate = refl

check-sold_usdt : check no_other (pos 1) sold_usdt ≡ ok tt
check-sold_usdt =
    check-conversion no_other sale ((codes "desk", codes "a") ∷ []) (pos 1) sold_usdt
      conversion_postings-sale refl refl

check-IsHonest_example :
    IsHonest no_other
      (pos 1)
      sold_usdt.postings
      (or_blank (find_metadata from_key sold_usdt.metadata))
      (or_blank (find_metadata to_key sold_usdt.metadata))
      (codes "0.99960")
check-IsHonest_example =
    check-IsHonest no_other (pos 1) sold_usdt (codes "0.99960") sold_usdt-rate check-sold_usdt
