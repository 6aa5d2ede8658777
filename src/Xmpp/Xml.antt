-- ===== src/Xmpp/Xml.antt =====
-- The elements of xml.etree.ElementTree that bumper/xmppserver.py reads.
use bumper.Prelude.{String, Option, none, some, List, [], ◌∷◌, ◌++◌, ◌==◌, if◌then◌else◌, is_some}

mutual
  -- The tag, the attributes, the text and the children.
  pub data Element : Type 0 where
    element : String → List (String × String) → Option String → Elements → Element

  pub data Elements : Type 0 where
    nil : Elements
    cons : Element → Elements → Elements

-- What `ET.fromstring` gives: the root, or a ParseError, told apart by its message.
pub data Parsed : Type 0 where
  root : Element → Parsed
  no_element_found invalid_token other_error : Parsed

abbrev pub tag : Element → String
tag (element t a x c) = t

abbrev pub attrib : Element → List (String × String)
attrib (element t a x c) = a

abbrev pub text : Element → Option String
text (element t a x c) = x

abbrev pub children : Element → Elements
children (element t a x c) = c

abbrev pub first_child : Element → Option Element
first_child (element t a x nil) = none
first_child (element t a x (cons e es)) = some e

unfoldable pub lookup : String → List (String × String) → Option String
lookup k [] = none
lookup k ((j, v) ∷ l) = if j == k then some v else lookup k l

-- `xml.get(key)`
abbrev pub get : String → Element → Option String
get k xml = lookup k (attrib xml)

-- `if "from" not in xml.attrib: xml.attrib["from"] = jid`
unfoldable pub with_from : String → Element → Element
with_from jid (element t a x c) =
    if is_some (lookup "from" a) then element t a x c else element t (a ++ ("from", jid) ∷ []) x c
