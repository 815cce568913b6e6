-- ===== src/Wuhbtool/Application.antt =====
-- `main` of src/wuhbtool/main.cpp behind the options: the folders that it adds to the root. What the
-- host has is a parameter: the executable's size and bytes, none where it is not found, and the tree of
-- the folder of contents, as CreateFolderFromPath makes it. The images are the contents of their
-- files, none where the option is not given or the image cannot be loaded.
pub mod Packed
use wut_tools.Common.Text.{codes}
use wut_tools.Common.{
  ℕ, false, List, [], ◌∷◌, length, Option, none, some, Run, ok, failed, and_then,
}
use wut_tools.Wuhbtool.Archive.{create_archive}
use wut_tools.Wuhbtool.Entries.{
  Contents, host_file, buffer, FileNode, DirNode, Children, end, file, dir, add_file, add_dir,
}
use wut_tools.Wuhbtool.Meta.{meta_ini_of}

abbrev pub new_file : List ℕ → Contents → ℕ → FileNode
new_file name contents size = record {
  name = name;
  contents = contents;
  size = size;
  offset = 0;
  entry_offset = 0;
  sibling = none;
}

abbrev pub new_dir : List ℕ → DirNode
new_dir name = record {
  name = name;
  entry_offset = 0;
  entry_offset_set = false;
  sibling = none;
  dir_child = none;
  file_child = none;
}

-- `BufferFileEntry`
abbrev pub buffer_file : List ℕ → List ℕ → FileNode
buffer_file name bytes = new_file name (buffer bytes) (length bytes)

-- A file of the host: its size, and its bytes where it can be opened.
pub record HostFile : Type 0 where
  pub size : ℕ
  pub bytes : Option (List ℕ)

-- `addFolderIfNotEmpty`
unfoldable pub add_folder_if_not_empty : Children → List ℕ → Children → Children
unfolding add_dir
add_folder_if_not_empty root name end = root
add_folder_if_not_empty root name (file f rest) = add_dir root (new_dir name) (file f rest)
add_folder_if_not_empty root name (dir d es rest) = add_dir root (new_dir name) (dir d es rest)

-- `addImageResource`
unfoldable pub add_image_resource : Children → List ℕ → Option (List ℕ) → Children
unfolding add_file
add_image_resource folder name none = folder
add_image_resource folder name (some bytes) = add_file folder (buffer_file name bytes)

-- The options for images, and the folder of contents.
pub record Resources : Type 0 where
  pub icon : Option (List ℕ)
  pub tv_image : Option (List ℕ)
  pub drc_image : Option (List ℕ)
  pub content : Option Children

unfoldable pub meta_folder : List ℕ → Resources → Children
unfolding add_file add_image_resource
meta_folder meta_ini r =
    add_image_resource
      (add_image_resource
        (add_image_resource (add_file end (buffer_file (codes "meta.ini") meta_ini))
          (codes "iconTex.tga.gz") r.icon)
        (codes "bootTvTex.tga.gz") r.tv_image)
      (codes "bootDrcTex.tga.gz") r.drc_image

abbrev pub content_of : Option Children → Children
content_of none = end
content_of (some es) = es

unfoldable pub application_tree : HostFile → List ℕ → Resources → Children
unfolding add_file meta_folder add_folder_if_not_empty
application_tree rpx meta_ini r =
    add_folder_if_not_empty
      (add_folder_if_not_empty
        (add_folder_if_not_empty end (codes "code")
          (add_file end (new_file (codes "root.rpx") (host_file rpx.bytes) rpx.size)))
        (codes "meta") (meta_folder meta_ini r))
      (codes "content") (content_of r.content)

-- The options of names, and the path of the executable.
pub record Naming : Type 0 where
  pub name : Option (List ℕ)
  pub short_name : Option (List ℕ)
  pub author : Option (List ℕ)
  pub path : List ℕ

-- What `main` adds to the root.
abbrev pub application : HostFile → Naming → Resources → Children
application rpx n r = application_tree rpx (meta_ini_of n.name n.short_name n.author n.path) r

-- The fuel bounds the loops of `CreateArchive`.
unfoldable pub make_archive : ℕ → Option HostFile → Naming → Resources → Option (Run (List ℕ))
unfolding create_archive
make_archive fuel none n r = some failed
make_archive fuel (some rpx) n r = create_archive fuel (new_dir []) (application rpx n r)
