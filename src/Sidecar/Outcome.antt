-- ===== src/Sidecar/Outcome.antt =====
-- When the hook writes the FTP server's configuration, and what it writes.
use knl.Common.{
  ◌≡◌, ◌≢◌, refl, sym, ap, ◌↔◌, inl, inr, arith, String, Bool, true, Bool-cases, Option, none, some,
  Option-cases, Map, lookup, ok, Result-cases, >>=-eq-ok, >>=-of-ok,
}
use knl.Text.{to_lower, trim_space}
use knl.Sidecar.{
  Vmi, find, ftp_svr_cfg, server_config, define_vsros, define_typed, on_define_domain, is_vsros,
  vsros_sysinfo_anno, sftp_svr_annotation, sftp_user_annotation, sftp_pass_annotation,
  ftp_path_map_annotation, chassis_type_annotation,
}
use knl.Sidecar.Edit.{Domain}

-- The annotations give an address, a user, a password and a path map, and the configuration has them.
unfoldable pub IsServed : (String → Bool) → Map String → String → Type 0
IsServed is_path_map annotations cfg =
    (host : String) × ((lookup sftp_svr_annotation annotations ≡ some host)
      × ((user : String) × ((lookup sftp_user_annotation annotations ≡ some user)
            × ((password : String) × ((lookup sftp_pass_annotation annotations ≡ some password)
                  × ((path_map : String) × ((lookup ftp_path_map_annotation annotations
                          ≡ some path_map)
                        × ((is_path_map path_map ≡ true)
                            × (cfg ≡ ftp_svr_cfg path_map user password host)))))))))

find_found :
    (key : String) (m : Map String) (v : String) → find key m ≡ ok v → lookup key m ≡ some v
find_found key m v h = elim (Option-cases (lookup key m)) [
  | inl e ↦ ground (arith, h, e)
  | inr (w, e) ↦ ground (arith, h, e)
]

found : (key : String) (m : Map String) (v : String) → lookup key m ≡ some v → find key m ≡ ok v
found key m v h = rw (find, h) refl

server_config_iff :
    (is_path_map : String → Bool) (annotations : Map String) (cfg : String)
    → (server_config is_path_map annotations ≡ ok cfg) ↔ IsServed is_path_map annotations cfg
unfolding server_config IsServed
server_config_iff is_path_map m cfg = (
  λ h.
      let (host, h1, k1) = >>=-eq-ok (find sftp_svr_annotation m) _ h in
      let (user, h2, k2) = >>=-eq-ok (find sftp_user_annotation m) _ k1 in
      let (password, h3, k3) = >>=-eq-ok (find sftp_pass_annotation m) _ k2 in
      let (path_map, h4, k4) = >>=-eq-ok (find ftp_path_map_annotation m) _ k3 in
      (
        host,
        (
          find_found _ m host h1,
          (
            user,
            (
              find_found _ m user h2,
              (
                password,
                (
                  find_found _ m password h3,
                  (
                    path_map,
                    (find_found _ m path_map h4, (ground (arith, k4), ground (arith, k4))),
                  ),
                ),
              ),
            ),
          ),
        ),
      ),
  λ (host, (h1, (user, (h2, (password, (h3, (path_map, (h4, (valid, e))))))))).
      >>=-of-ok _ (found sftp_svr_annotation m host h1) (
        >>=-of-ok _ (found sftp_user_annotation m user h2) (
          >>=-of-ok _ (found sftp_pass_annotation m password h3) (
            >>=-of-ok _ (found ftp_path_map_annotation m path_map h4) (rw valid (ap ok (sym e)))))),
)

module _ {R : Type 0} (decode_vmi : String → Option Vmi) (unmarshal : String → Option (Domain R))
    (marshal : Domain R → Option String) (is_path_map : String → Bool) where
  -- the instance decodes, its type is a vSROS type, it has system information, and the server's data
  unfoldable pub IsWritten : String → String → Type 0
  unfolding IsServed
  IsWritten vmi_json cfg =
      (vmi : Vmi) × ((decode_vmi vmi_json ≡ some vmi)
        × ((vmts : String) × ((lookup chassis_type_annotation vmi.labels ≡ some vmts)
              × ((is_vsros (to_lower (trim_space vmts)) ≡ true)
                  × ((lookup vsros_sysinfo_anno vmi.annotations ≢ none)
                      × IsServed is_path_map vmi.annotations cfg)))))

  -- The hook writes a configuration of the FTP server only for an instance of a vSROS type with system
  -- information, the four annotations and a path map that decodes; it has their values.
  pub on_define_domain-IsWritten :
      (vmi_json domain_xml cfg : String)
      → (on_define_domain decode_vmi unmarshal marshal is_path_map vmi_json domain_xml).0 ≡ some cfg
      → IsWritten vmi_json cfg
  unfolding on_define_domain define_typed define_vsros IsWritten
  on_define_domain-IsWritten vmi_json domain_xml cfg h = elim (Option-cases (decode_vmi vmi_json)) [
    | inl e ↦ ground (arith, h, e)
    | inr (vmi, e) ↦ elim (Option-cases (unmarshal domain_xml)) [
      | inl f ↦ ground (arith, h, e, f)
      | inr (domain, f) ↦ elim (Option-cases (lookup chassis_type_annotation vmi.labels)) [
        | inl g ↦ ground (arith, h, e, f, g)
        | inr (vmts, g) ↦ elim (Bool-cases (is_vsros (to_lower (trim_space vmts)))) [
          | inr n ↦ ground (arith, h, e, f, g, n)
          | inl y ↦ elim (Option-cases (lookup vsros_sysinfo_anno vmi.annotations)) [
            | inl s ↦ ground (arith, h, e, f, g, y, s)
            | inr (sysinfo, s) ↦ elim (Result-cases (server_config is_path_map vmi.annotations)) [
              | inr x ↦ ground (arith, h, e, f, g, y, s, x)
              | inl (c, x) ↦ (
                vmi,
                (
                  e,
                  (
                    vmts,
                    (
                      g,
                      (
                        y,
                        (
                          λ gone. ground (arith, s, gone),
                          (server_config_iff is_path_map vmi.annotations cfg).0
                              (ground (arith, h, e, f, g, y, s, x)),
                        ),
                      ),
                    ),
                  ),
                ),
              )
            ]
          ]
        ]
      ]
    ]
  ]
