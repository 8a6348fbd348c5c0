-- ===== src/Oidc/PageConfig.antt =====
-- crates/oidc/src/page_config.rs: what a page is told.
use common_rust.Prelude.{Option, none, some, []}
use common_rust.Prelude.Text.{Text}
use common_rust.Oidc.Client.{OidcConfig, login_path_default}

pub record PageUser : Type 0 where
  pub name : Text
  pub portrait : Option Text

pub record PageConfig : Type 0 where
  pub assets_origin : Text
  pub login_path : Text
  pub launcher_url : Text
  pub logout_path : Text
  pub user : Option PageUser

abbrev page_user : Option Text → Option PageUser
page_user none = none
page_user (some name) = some (record { name = name; portrait = none })

abbrev pub build : Text → Text → Option Text → Text → Text → PageConfig
build login_path logout_path user launcher_url assets_origin = record {
  assets_origin = assets_origin;
  login_path = login_path;
  launcher_url = launcher_url;
  logout_path = logout_path;
  user = page_user user;
}

abbrev pub new : {U : Type 0} → OidcConfig U → Option Text → Text → Text → PageConfig
new cfg = build cfg.login_path cfg.logout_path

abbrev pub without_oidc : Option Text → Text → Text → PageConfig
without_oidc = build login_path_default []
