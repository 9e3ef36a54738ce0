-- ===== src/Url.antt =====
-- What the program reads of a parsed URL. `new URL(text)` is the platform's: a module that needs it
-- takes `parse_url : Text → Option Url` as a parameter, where `none` is the TypeError it throws.
use voxhf.Prelude.{Text}

pub record Url : Type 0 where
  pub protocol : Text
  pub username : Text
  pub password : Text
  pub hostname : Text
  pub port : Text
  pub origin : Text
