-- ===== src/Host/Client/Tables.antt =====
-- The commands that print lists (main.go): cmdContainerList and cmdImageList.
use aetheria.Prelude.{
  ℕ, zero, suc, Option, none, some, List, [], ◌∷◌, ◌++◌, Bytes, codes, map, Exec, pure, ◌>>=◌, ◌>>◌,
}
use aetheria.Prelude.Int.{ℤ}
use aetheria.Text.{join}
use aetheria.Text.Decimal.{decimal}
use aetheria.Host.Client.{no_params, ClientError, Socket, ClientJson}
use aetheria.Host.Client.Plain.{Console, pad_right, print, ask_plain, or_die}

-- A container of the list, as the loop reads it: `name`, `status` and `image` as they are printed, a
-- text that is missing as an empty one, `pid` 0 where it is missing, and the ports that are objects.
pub record Row : Type 0 where
  pub name : Bytes
  pub status : Bytes
  pub pid : ℕ
  pub network : Bytes
  pub ip : Bytes
  pub ports : List (ℕ × ℕ)
  pub image : Bytes

unfoldable pub show_pid : ℕ → Bytes
show_pid zero = []
show_pid (suc n) = decimal (suc n)

abbrev pub show_port : ℕ × ℕ → Bytes
show_port (hp, cp) = decimal hp ++ codes ":" ++ decimal cp

unfoldable pub show_ports : List (ℕ × ℕ) → Bytes
show_ports ps = join (map show_port ps) (codes ",")

-- The format of the seven columns
unfoldable pub columns : Bytes → Bytes → Bytes → Bytes → Bytes → Bytes → Bytes → Bytes
columns name status pid network ip ports image =
    pad_right 16 name
    ++ codes " "
    ++ pad_right 10 status
    ++ codes " "
    ++ pad_right 8 pid
    ++ codes " "
    ++ pad_right 8 network
    ++ codes " "
    ++ pad_right 16 ip
    ++ codes " "
    ++ pad_right 20 ports
    ++ codes " "
    ++ image
    ++ codes "\n"

abbrev pub header_row : Bytes
header_row =
    columns (codes "NAME") (codes "STATUS") (codes "PID") (codes "NETWORK") (codes "IP")
      (codes "PORTS") (codes "IMAGE")

unfoldable pub show_row : Row → Bytes
show_row r = columns r.name r.status (show_pid r.pid) r.network r.ip (show_ports r.ports) r.image

unfoldable pub show_image : Bytes × Bytes × Bytes → Bytes
show_image (name, version, arch) =
    codes "  " ++ pad_right 12 name ++ codes " " ++ version ++ codes " " ++ arch ++ codes "\n"

module _ {W : Type 0} (socket : Socket W) (codec : ClientJson) (text_of : ClientError → Bytes) where
  unfoldable pub print_all : {A : Type 0} → (A → Bytes) → List A → Exec (Console W) ℤ Unit
  print_all show [] = pure tt
  print_all show (x ∷ xs) = print (show x) >> print_all show xs

  abbrev pub print_rows : List Row → Exec (Console W) ℤ Unit
  print_rows [] = print (codes "No containers.\n")
  print_rows (r ∷ rs) = print header_row >> print_all show_row (r ∷ rs)

  -- cmdContainerList: `parse_rows` is `none` for an error, and `bad` its message.
  unfoldable pub list_command :
      (Bytes → Option (List Row)) → (Bytes → Bytes) → Exec (Console W) ℤ Unit
  list_command parse_rows bad =
      ask_plain socket codec text_of (codes "container.list") no_params >>= λ resp.
      or_die socket codec text_of (codes "parse: " ++ bad resp.result) (parse_rows resp.result)
      >>= print_rows

  abbrev pub print_images : Option (List (Bytes × Bytes × Bytes)) → Exec (Console W) ℤ Unit
  print_images none = pure tt
  print_images (some images) = print_all show_image images

  -- cmdImageList: `parse_images` yields the objects of the list `available`, their fields as they are
  -- printed, and `none` where there is no such list.
  unfoldable pub images_command :
      (Bytes → Option (List (Bytes × Bytes × Bytes))) → Exec (Console W) ℤ Unit
  images_command parse_images =
      ask_plain socket codec text_of (codes "image.list") no_params >>= λ resp.
      print (codes "Available images:\n") >> print_images (parse_images resp.result)
