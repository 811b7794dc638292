-- ===== src/Http/Mime.antt =====
-- src/wrappers/http/mime_types.cpp: the media type of a file extension.
use clean_architecture_cpp.Base.{if◌then◌else◌, List, [], ◌∷◌, Text, codes, text_eq}

abbrev pub mappings : List (Text × Text)
mappings =
    (codes "gif", codes "image/gif")
    ∷ (codes "htm", codes "text/html")
    ∷ (codes "html", codes "text/html")
    ∷ (codes "jpg", codes "image/jpeg")
    ∷ (codes "png", codes "image/png")
    ∷ []

abbrev search_type : List (Text × Text) → Text → Text
search_type [] extension = codes "text/plain"
search_type ((known, mime_type) ∷ rest) extension =
    if text_eq known extension then mime_type else search_type rest extension

unfoldable pub extension_to_type : Text → Text
extension_to_type extension = search_type mappings extension
