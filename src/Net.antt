-- ===== src/Net.antt =====
-- What the program uses of the package net: the host of SplitHostPort ("" for an error), ParseIP, and
-- ParseCIDR, which answers the network as a test of an address.
use go_notes_api.Base.{Bool, ℕ, List, String, Option}

pub record Net : Type 0 where
  pub split_host : String → String
  pub parse_ip : String → Option (List ℕ)
  pub parse_cidr : String → Option (List ℕ → Bool)
